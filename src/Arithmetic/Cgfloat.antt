-- ===== src/Arithmetic/Cgfloat.antt =====
-- The CGFloat functions of BromiumCoreUtils/BRUArithmetic.h, where CGFloat is double (as their static
-- assertions demand), and what the comments promise of all floating-point conversions.
use bromium_core_utils.Prelude.{◌^◌, ◌≡◌, Bool, false, Option, arith}
use bromium_core_utils.Prelude.Int.{ℤ, pos}
use bromium_core_utils.Arithmetic.Floating.{
  Floats, double_to_uint32, double_to_int32, float_to_int32, double_to_size, IsConverted,
  doubles-IsConverted, float_to_int32-IsConverted, int32_min, int32_max, uint32_max, safe_float_min,
  safe_float_max, safe_double_max,
}

module _ (F : Floats) where
  open F use {Float}

  unfoldable pub cgfloat_to_uint32 : Float → ℤ → Option (Bool × ℤ)
  unfolding double_to_uint32
  cgfloat_to_uint32 a out = double_to_uint32 F a out

  unfoldable pub cgfloat_to_int32 : Float → ℤ → Option (Bool × ℤ)
  unfolding double_to_int32
  cgfloat_to_int32 a out = double_to_int32 F a out

  unfoldable pub cgfloat_to_glsizei : Float → ℤ → Option (Bool × ℤ)
  unfolding double_to_int32
  cgfloat_to_glsizei a out = double_to_int32 F a out

  unfoldable pub cgfloat_to_size : Float → ℤ → Option (Bool × ℤ)
  unfolding double_to_size
  cgfloat_to_size a out = double_to_size F a out

  -- Safe input values are bounded by 0.0 and UINT32_MAX.
  abbrev pub DoubleToUint32 : Float → ℤ → Option (Bool × ℤ) → Type 0
  DoubleToUint32 = IsConverted F (pos 0) uint32_max

  abbrev pub CgfloatToUint32 : Float → ℤ → Option (Bool × ℤ) → Type 0
  CgfloatToUint32 = IsConverted F (pos 0) uint32_max

  -- By BRU_SAFE_FLOAT_MIN and BRU_SAFE_FLOAT_MAX.
  abbrev pub FloatToInt32 : Float → ℤ → Option (Bool × ℤ) → Type 0
  FloatToInt32 = IsConverted F safe_float_min safe_float_max

  -- By INT32_MIN and INT32_MAX.
  abbrev pub DoubleToInt32 : Float → ℤ → Option (Bool × ℤ) → Type 0
  DoubleToInt32 = IsConverted F int32_min int32_max

  abbrev pub CgfloatToInt32 : Float → ℤ → Option (Bool × ℤ) → Type 0
  CgfloatToInt32 = IsConverted F int32_min int32_max

  abbrev pub CgfloatToGlsizei : Float → ℤ → Option (Bool × ℤ) → Type 0
  CgfloatToGlsizei = IsConverted F int32_min int32_max

  -- By 0.0 and BRU_SAFE_DOUBLE_MAX.
  abbrev pub DoubleToSize : Float → ℤ → Option (Bool × ℤ) → Type 0
  DoubleToSize = IsConverted F (pos 0) safe_double_max

  abbrev pub CgfloatToSize : Float → ℤ → Option (Bool × ℤ) → Type 0
  CgfloatToSize = IsConverted F (pos 0) safe_double_max

-- For every floating-point number that is not NaN, of a float format that has the integers up to 2^24
-- and a double format that has those up to 2^53, the eight conversions are defined, and keep what
-- their comments promise: a number outside the bounds given there, and no other, is refused, which
-- leaves the out-parameter alone; of the others they store the integral part, which is within the
-- bounds too.
pub floating_documented :
    (S D : Floats) (x : Floats.Float S) (a : Floats.Float D) (out : ℤ)
    → Floats.exact_max S ≡ 2 ^ 24
    → Floats.exact_max D ≡ 2 ^ 53
    → Floats.is_nan S x ≡ false
    → Floats.is_nan D a ≡ false
    → DoubleToUint32 D a out (double_to_uint32 D a out)
      × CgfloatToUint32 D a out (cgfloat_to_uint32 D a out)
      × FloatToInt32 S x out (float_to_int32 S x out)
      × DoubleToInt32 D a out (double_to_int32 D a out)
      × CgfloatToInt32 D a out (cgfloat_to_int32 D a out)
      × CgfloatToGlsizei D a out (cgfloat_to_glsizei D a out)
      × DoubleToSize D a out (double_to_size D a out)
      × CgfloatToSize D a out (cgfloat_to_size D a out)
unfolding cgfloat_to_uint32 cgfloat_to_int32 cgfloat_to_glsizei cgfloat_to_size
floating_documented S D x a out p q g h =
    let (uint32, int32, size) = doubles-IsConverted D a out (omega (arith, q)) h in
    let float = float_to_int32-IsConverted S x out (omega (arith, p)) g in
    (uint32, uint32, float, int32, int32, int32, size, size)
