-- ===== src/EqualityUtils/Comparisons.antt =====
-- The laws of the comparisons of BromiumCoreUtils/BRUEqualityUtils.h.
use bromium_core_utils.Prelude.{
  ◌≡◌, refl, ap, ◌∙◌, ◌↔◌, inl, inr, Bool, true, false, Bool-cases, arith,
}
use bromium_core_utils.EqualityUtils.{
  Precision, bool_is_equal_to_bool, float_equals, double_equals, time_interval_equals,
}

module _ (P : Precision) where
  open P use {
    Float, zero, sub, fabs, lt, is_finite, is_nan, sub_finite, sub_not_finite, sub_nan, sub_swap,
    lt_nan, lt_trans,
  }

  -- A comparison with a threshold: reflexive exactly on the finite numbers, symmetric, false for
  -- NaN, and implied by the comparison with a smaller threshold.
  pub record IsThreshold (equals : Float → Float → Float → Bool) : Type 0 where
    pub reflexive :
        (x epsilon : Float)
        → lt zero epsilon ≡ true
        → (equals x x epsilon ≡ true) ↔ (is_finite x ≡ true)
    pub symmetric : (x y epsilon : Float) → equals x y epsilon ≡ equals y x epsilon
    pub not_nan : (x y epsilon : Float) → is_nan x ≡ true → equals x y epsilon ≡ false
    pub widens :
        (x y epsilon larger : Float)
        → lt epsilon larger ≡ true
        → equals x y epsilon ≡ true
        → equals x y larger ≡ true

  within : Float → Float → Float → Bool
  within x y epsilon = lt (fabs (sub x y)) epsilon

  within-IsThreshold : IsThreshold within
  unfolding within
  within-IsThreshold = record {
    reflexive = λ x epsilon h. elim (Bool-cases (is_finite x)) [
      | inl e ↦ (λ _. e, λ _. ap (λ d. lt d epsilon) (sub_finite x e) ∙ h)
      | inr e ↦ (
        λ k. absurd (ground (arith, lt_nan (fabs (sub x x)) epsilon, sub_not_finite x e)),
        λ k. absurd (ground arith),
      )
    ];
    symmetric = λ x y epsilon. ap (λ d. lt d epsilon) (sub_swap x y);
    not_nan = λ x y epsilon h. lt_nan (fabs (sub x y)) epsilon (sub_nan x y h);
    widens = λ x y epsilon larger h k. lt_trans (fabs (sub x y)) epsilon larger k h;
  }

-- The comparisons of floating-point numbers say whether these are within the threshold of each
-- other: for a positive one each finite number, and no other, equals itself; the operands can be
-- exchanged; NaN equals nothing; numbers equal under one threshold are so under a larger one.
-- Time intervals are compared as doubles with DBL_EPSILON, and Booleans are equal exactly when
-- both hold or neither does.
pub comparisons-IsThreshold :
    (F D : Precision) (x y dbl_epsilon : D.Float) (a b : Bool)
    → IsThreshold F (float_equals F)
      × IsThreshold D (double_equals D)
      × (time_interval_equals D dbl_epsilon x y ≡ double_equals D x y dbl_epsilon)
      × ((bool_is_equal_to_bool a b ≡ true) ↔ (a ≡ b))
unfolding float_equals double_equals time_interval_equals bool_is_equal_to_bool within
comparisons-IsThreshold F D x y dbl_epsilon a b =
    (within-IsThreshold F, within-IsThreshold D, refl, (λ e. ground arith, λ e. ground arith))
