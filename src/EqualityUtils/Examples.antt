-- ===== src/EqualityUtils/Examples.antt =====
-- Whole numbers, with an infinity and NaN (BromiumCoreUtils/BRUEqualityUtils.h).
use bromium_core_utils.Prelude.{◌+◌, ◌≡◌, refl, ◌↔◌, ◌⊎◌, inl, Bool, true, false, none, some, arith}
use bromium_core_utils.Prelude.Int.{ℤ, pos, negsuc, pos_part, neg_part, sub_ℕ, ltb_ℤ}
use bromium_core_utils.Prelude.Outcome.{Returns, fatal}
use bromium_core_utils.Retry.{Retry, idle, active_waiting, stop, handle_result}
use bromium_core_utils.EqualityUtils.{
  Precision, bool_is_equal_to_bool, float_equals, double_equals, time_interval_equals,
}
use bromium_core_utils.EqualityUtils.Comparisons.{IsThreshold, comparisons-IsThreshold}
use bromium_core_utils.EqualityUtils.Delays.{equals, end_needs_finite_delay}

data Number : Type 0 where
  nan : Number
  infinite : Number
  whole : ℤ → Number

abbrev minus : Number → Number → Number
minus nan y = nan
minus infinite (whole b) = infinite
minus infinite infinite = nan
minus infinite nan = nan
minus (whole a) nan = nan
minus (whole a) infinite = infinite
minus (whole a) (whole b) = whole (sub_ℕ (pos_part a + neg_part b) (pos_part b + neg_part a))

abbrev magnitude : Number → Number
magnitude nan = nan
magnitude infinite = infinite
magnitude (whole a) = whole (pos (pos_part a + neg_part a))

abbrev less : Number → Number → Bool
less nan y = false
less infinite y = false
less (whole a) nan = false
less (whole a) infinite = true
less (whole a) (whole b) = ltb_ℤ a b

abbrev is_whole : Number → Bool
is_whole (whole a) = true
is_whole _ = false

abbrev is_not_number : Number → Bool
is_not_number nan = true
is_not_number _ = false

minus_self : (x : Number) → is_whole x ≡ true → magnitude (minus x x) ≡ whole (pos 0)
minus_self nan h = absurd (ground arith)
minus_self infinite h = absurd (ground arith)
minus_self (whole (pos n)) h = ground arith
minus_self (whole (negsuc n)) h = ground arith

minus_self_nan : (x : Number) → is_whole x ≡ false → is_not_number (magnitude (minus x x)) ≡ true
minus_self_nan nan h = refl
minus_self_nan infinite h = refl
minus_self_nan (whole a) h = absurd (ground arith)

minus_nan : (x y : Number) → is_not_number x ≡ true → is_not_number (magnitude (minus x y)) ≡ true
minus_nan nan y h = refl
minus_nan infinite y h = absurd (ground arith)
minus_nan (whole a) y h = absurd (ground arith)

minus_swap : (x y : Number) → magnitude (minus x y) ≡ magnitude (minus y x)
minus_swap nan nan = refl
minus_swap nan infinite = refl
minus_swap nan (whole b) = refl
minus_swap infinite nan = refl
minus_swap infinite infinite = refl
minus_swap infinite (whole b) = refl
minus_swap (whole a) nan = refl
minus_swap (whole a) infinite = refl
minus_swap (whole a) (whole b) = ground arith

less_nan : (x y : Number) → is_not_number x ≡ true → less x y ≡ false
less_nan nan y h = refl
less_nan infinite y h = refl
less_nan (whole a) y h = absurd (ground arith)

less_trans : (x y z : Number) → less x y ≡ true → less y z ≡ true → less x z ≡ true
less_trans x y z h k = ground arith

abbrev numbers : Precision
numbers = record {
  Float = Number;
  zero = whole (pos 0);
  sub = minus;
  fabs = magnitude;
  lt = less;
  is_finite = is_whole;
  is_nan = is_not_number;
  sub_finite = minus_self;
  sub_not_finite = minus_self_nan;
  sub_nan = minus_nan;
  sub_swap = minus_swap;
  lt_nan = less_nan;
  lt_trans = less_trans;
}

abbrev three : Number
three = whole (pos 3)

abbrev one : Number
one = whole (pos 1)

comparisons-IsThreshold_example :
    IsThreshold numbers (float_equals numbers)
    × IsThreshold numbers (double_equals numbers)
    × (time_interval_equals numbers one three nan ≡ double_equals numbers three nan one)
    × ((bool_is_equal_to_bool true false ≡ true) ↔ (true ≡ false))
comparisons-IsThreshold_example = comparisons-IsThreshold numbers numbers three nan one true false

-- An operation of an object whose delay is infinite has succeeded.
abbrev never : Retry Number
never = record {
  delay = infinite;
  timer = none;
  attempt = 1;
  state = active_waiting;
  current_delay = whole (pos 0);
  identifier = some 4;
  deferred = some 5;
}

end_needs_finite_delay_example :
    ((is_whole infinite ≡ true)
      × Returns
          (λ s. s.0.state ≡ idle)
          (handle_result (equals numbers one) true none stop infinite never))
    ⊎ ((is_whole infinite ≡ false)
        × (handle_result (equals numbers one) true none stop infinite never ≡ fatal))
end_needs_finite_delay_example =
    end_needs_finite_delay numbers one true none stop infinite never refl refl (inl refl)
