-- ===== src/Arithmetic/Conversions.antt =====
-- The conversions between integer types of BromiumCoreUtils/BRUArithmetic.h.
use bromium_core_utils.Prelude.{ℕ, ◌^◌, ◌<◌, ◌≤◌, ◌≡◌, ◌⊎◌, true, false, arith}
use bromium_core_utils.Prelude.Int.{ℤ, pos, negsuc}
use bromium_core_utils.Arithmetic.Builtins.{IsInt32}
use bromium_core_utils.Arithmetic.{
  size_to_int32, size_to_glsizei, glsizei_to_size, ptrdiff_to_size, size_to_ptrdiff,
}

-- The conversion of a number of type size_t to int32_t stores the number itself when it is below
-- 2^31, and otherwise it is refused and the out-parameter keeps its content.
pub size_to_int32-cases :
    (a : ℕ) (out : ℤ)
    → ((a < 2 ^ 31) × (size_to_int32 a out ≡ (true, pos a)))
      ⊎ ((2 ^ 31 ≤ a) × (size_to_int32 a out ≡ (false, out)))
unfolding size_to_int32
size_to_int32-cases a out = ground arith

-- A size_t below 2^63 converts to ptrdiff_t, and converting the result back gives it again; one
-- from 2^63 on is refused and the out-parameter keeps its content.
pub size-ptrdiff_round_trip :
    (a out_size : ℕ) (out : ℤ)
    → a < 2 ^ 64
    → ((a < 2 ^ 63)
        × ((size_to_ptrdiff a out).0 ≡ true)
        × (ptrdiff_to_size (size_to_ptrdiff a out).1 out_size ≡ (true, a)))
      ⊎ ((2 ^ 63 ≤ a) × (size_to_ptrdiff a out ≡ (false, out)))
unfolding size_to_ptrdiff ptrdiff_to_size
size-ptrdiff_round_trip a o out h = ground arith

-- For every 32-bit integer: either it converts to size_t, and converting the result back gives it
-- again, or it is refused and the out-parameter keeps its content.
pub glsizei-size_round_trip :
    (a out : ℤ) (out_size : ℕ)
    → IsInt32 a
    → (((glsizei_to_size a out_size).0 ≡ true)
        × (size_to_glsizei (glsizei_to_size a out_size).1 out ≡ (true, a)))
      ⊎ (glsizei_to_size a out_size ≡ (false, out_size))
unfolding glsizei_to_size size_to_glsizei
glsizei-size_round_trip (pos n) out o h = ground arith
glsizei-size_round_trip (negsuc n) out o h = ground arith
