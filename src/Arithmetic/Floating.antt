-- ===== src/Arithmetic/Floating.antt =====
-- The conversions from floating-point numbers of BromiumCoreUtils/BRUArithmetic.h. `Floats` is what
-- they use of IEEE 754 and C: a comparison with NaN is false, and the value of a cast to an
-- integer type is undefined for NaN and for numbers whose integral part is outside the type.
use bromium_core_utils.Prelude.{
  ℕ, suc, ◌≤◌, ◌-◌, ◌^◌, ◌≡◌, ◌⊎◌, inl, inr, Bool-cases, Bool, true, false, ◌||◌, Option, none,
  some, if◌then◌else◌, arith,
}
use bromium_core_utils.Prelude.Int.{ℤ, pos, negsuc, ◌≤ℤ◌, ltb_ℤ}

abbrev pub magnitude : ℤ → ℕ
magnitude (pos n) = n
magnitude (negsuc n) = suc n

pub record Floats : Type 1 where
  pub Float : Type 0
  pub lt : Float → Float → Bool
  pub of_ℤ : ℤ → Float
  -- The integers of at most this magnitude are represented exactly: 2^24 for float, 2^53 for double.
  pub exact_max : ℕ
  pub is_nan : Float → Bool
  -- The integral part; nothing for NaN and the infinities.
  pub integral : Float → Option ℤ
  -- A number that is neither below one such integer nor above another has its integral part between.
  pub integral_between :
      (x : Float) (lo hi : ℤ)
      → magnitude lo ≤ exact_max
      → magnitude hi ≤ exact_max
      → is_nan x ≡ false
      → lt x (of_ℤ lo) ≡ false
      → lt (of_ℤ hi) x ≡ false
      → (n : ℤ) × (integral x ≡ some n) × (lo ≤ℤ n) × (n ≤ℤ hi)
  pub lt_nan : (x y : Float) → is_nan x ≡ true → (lt x y ≡ false) × (lt y x ≡ false)
  pub integral_nan : (x : Float) → is_nan x ≡ true → integral x ≡ none

-- `BRU_SAFE_FLOAT_MAX`, `BRU_SAFE_FLOAT_MIN` and `BRU_SAFE_DOUBLE_MAX`.
abbrev pub safe_float_max : ℤ
safe_float_max = pos (2 ^ 24 - 1)

abbrev pub safe_float_min : ℤ
safe_float_min = negsuc (2 ^ 24 - 2)

abbrev pub safe_double_max : ℤ
safe_double_max = pos (2 ^ 53 - 1)

abbrev pub int32_min : ℤ
int32_min = negsuc (2 ^ 31 - 1)

abbrev pub int32_max : ℤ
int32_max = pos (2 ^ 31 - 1)

abbrev pub uint32_max : ℤ
uint32_max = pos (2 ^ 32 - 1)

abbrev pub size_max : ℤ
size_max = pos (2 ^ 64 - 1)

-- A cast to a type with the range from `lo` to `hi`; `none` is undefined behaviour.
abbrev cast : ℤ → ℤ → Option ℤ → Option ℤ
cast lo hi none = none
cast lo hi (some n) = if ltb_ℤ n lo || ltb_ℤ hi n then none else some n

abbrev stored : Option ℤ → Option (Bool × ℤ)
stored none = none
stored (some n) = some (true, n)

module _ (F : Floats) where
  open F use {Float, lt, of_ℤ, exact_max, is_nan, integral, integral_between, lt_nan, integral_nan}

  -- The shape of all four: the bounds of the check, and the range of the type. The result is the
  -- returned value with the content of the out-parameter.
  unfoldable pub convert : (min max lo hi : ℤ) → Float → ℤ → Option (Bool × ℤ)
  convert min max lo hi a out =
      if lt a (of_ℤ min) || lt (of_ℤ max) a
      then some (false, out)
      else stored (cast lo hi (integral a))

  unfoldable pub double_to_uint32 : Float → ℤ → Option (Bool × ℤ)
  unfolding convert
  double_to_uint32 a out = convert (pos 0) uint32_max (pos 0) uint32_max a out

  unfoldable pub float_to_int32 : Float → ℤ → Option (Bool × ℤ)
  unfolding convert
  float_to_int32 a out = convert safe_float_min safe_float_max int32_min int32_max a out

  unfoldable pub double_to_int32 : Float → ℤ → Option (Bool × ℤ)
  unfolding convert
  double_to_int32 a out = convert int32_min int32_max int32_min int32_max a out

  unfoldable pub double_to_size : Float → ℤ → Option (Bool × ℤ)
  unfolding convert
  double_to_size a out = convert (pos 0) safe_double_max (pos 0) size_max a out

  -- Out of the bounds the conversion is refused and the out-parameter keeps its content; within
  -- them the integral part is stored, which is within the bounds too.
  abbrev pub IsConverted : (min max : ℤ) → Float → ℤ → Option (Bool × ℤ) → Type 0
  IsConverted min max a out r =
      (((lt a (of_ℤ min) || lt (of_ℤ max) a) ≡ true) × (r ≡ some (false, out)))
      ⊎ ((n : ℤ) × ((lt a (of_ℤ min) || lt (of_ℤ max) a) ≡ false)
          × (integral a ≡ some n)
          × (min ≤ℤ n)
          × (n ≤ℤ max)
          × (r ≡ some (true, n)))

  cast-some : (lo hi n : ℤ) → lo ≤ℤ n → n ≤ℤ hi → stored (cast lo hi (some n)) ≡ some (true, n)
  cast-some lo hi n l h = ground arith

  convert-IsConverted :
      (min max lo hi : ℤ) (a : Float) (out : ℤ)
      → magnitude min ≤ exact_max
      → magnitude max ≤ exact_max
      → is_nan a ≡ false
      → lo ≤ℤ min
      → max ≤ℤ hi
      → IsConverted min max a out (convert min max lo hi a out)
  unfolding convert
  convert-IsConverted min max lo hi a out u v h l m =
      elim (Bool-cases (lt a (of_ℤ min) || lt (of_ℤ max) a)) [
        | inl outside ↦ inl (outside, rw outside)
        | inr inside ↦
            let (n, e, p, q) = integral_between a min max u v h (ground arith) (ground arith) in
            inr (n, inside, e, p, q, rw (inside, e) (cast-some lo hi n (omega arith) (omega arith)))
      ]

  -- For every floating-point number that is not NaN a conversion refuses what is outside the bounds,
  -- and stores the integral part of the rest: of a format that has the integers up to 2^53,
  pub doubles-IsConverted :
      (a : Float) (out : ℤ)
      → 2 ^ 53 ≤ exact_max
      → is_nan a ≡ false
      → IsConverted (pos 0) uint32_max a out (double_to_uint32 a out)
        × IsConverted int32_min int32_max a out (double_to_int32 a out)
        × IsConverted (pos 0) safe_double_max a out (double_to_size a out)
  unfolding double_to_uint32 double_to_int32 double_to_size
  doubles-IsConverted a out x h = (
    convert-IsConverted (pos 0) uint32_max (pos 0) uint32_max a out (omega arith) (omega arith) h
        (omega arith) (omega arith),
    convert-IsConverted int32_min int32_max int32_min int32_max a out (omega arith) (omega arith) h
        (omega arith) (omega arith),
    convert-IsConverted (pos 0) safe_double_max (pos 0) size_max a out (omega arith) (omega arith) h
        (omega arith) (omega arith),
  )

  -- and of one that has those up to 2^24.
  pub float_to_int32-IsConverted :
      (a : Float) (out : ℤ)
      → 2 ^ 24 ≤ exact_max
      → is_nan a ≡ false
      → IsConverted safe_float_min safe_float_max a out (float_to_int32 a out)
  unfolding float_to_int32
  float_to_int32-IsConverted a out x h =
      convert-IsConverted safe_float_min safe_float_max int32_min int32_max a out (omega arith)
        (omega arith) h (omega arith) (omega arith)

  convert_nan :
      (min max lo hi : ℤ) (a : Float) (out : ℤ)
      → is_nan a ≡ true
      → convert min max lo hi a out ≡ none
  unfolding convert
  convert_nan min max lo hi a out h =
      rw ((lt_nan a (of_ℤ min) h).0, (lt_nan a (of_ℤ max) h).1, integral_nan a h)

  -- NaN passes the checks of all four conversions, and its cast is undefined behaviour.
  pub conversions_nan :
      (a : Float) (out : ℤ)
      → is_nan a ≡ true
      → (double_to_uint32 a out ≡ none)
        × (double_to_int32 a out ≡ none)
        × (float_to_int32 a out ≡ none)
        × (double_to_size a out ≡ none)
  unfolding double_to_uint32 double_to_int32 float_to_int32 double_to_size
  conversions_nan a out h = (
    convert_nan (pos 0) uint32_max (pos 0) uint32_max a out h,
    convert_nan int32_min int32_max int32_min int32_max a out h,
    convert_nan safe_float_min safe_float_max int32_min int32_max a out h,
    convert_nan (pos 0) safe_double_max (pos 0) size_max a out h,
  )
