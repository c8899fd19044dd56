-- ===== src/Arithmetic.antt =====
-- BromiumCoreUtils/BRUArithmetic.h: conversions and arithmetic that report overflow. A function
-- returns its result and what the out-parameter holds afterwards; where the source leaves the
-- out-parameter alone, its old content `out` is an argument. Unsigned 32- and 64-bit integers are
-- numbers, signed ones are integers, in their ranges. `Builtins` has the compiler's operations.
pub mod Builtins
pub mod Conversions
pub mod Exactness
pub mod Products
pub mod Floating
pub mod Contract
pub mod Documented
pub mod Cgfloat
mod Examples
use bromium_core_utils.Prelude.{ℕ, Bool, true, false, not, ◌<◌, ltb, if◌then◌else◌}
use bromium_core_utils.Prelude.Int.{ℤ, pos, ltb_ℤ}
use Builtins.{
  int32_max, ptrdiff_max, to_int32, to_size, to_ptrdiff, saddl_overflow, smull_overflow,
  uaddl_overflow, usubl_overflow, umull_overflow, umul_overflow, pointer_to_ptrdiff,
}

unfoldable pub size_to_int32 : ℕ → ℤ → Bool × ℤ
size_to_int32 a out = if ltb int32_max a then (false, out) else (true, to_int32 a)

unfoldable pub size_to_glsizei : ℕ → ℤ → Bool × ℤ
unfolding size_to_int32
size_to_glsizei a out = size_to_int32 a out

unfoldable pub glsizei_to_size : ℤ → ℕ → Bool × ℕ
glsizei_to_size a out = if ltb_ℤ a (pos 0) then (false, out) else (true, to_size a)

unfoldable pub ptrdiff_to_size : ℤ → ℕ → Bool × ℕ
ptrdiff_to_size a out = if ltb_ℤ a (pos 0) then (false, out) else (true, to_size a)

unfoldable pub size_to_ptrdiff : ℕ → ℤ → Bool × ℤ
size_to_ptrdiff a out = if ltb ptrdiff_max a then (false, out) else (true, to_ptrdiff a)

-- The pointer is a 64-bit address; `intptr_t` reads it as a signed number.
unfoldable pub offset_pointer : ℕ → ℤ → ℕ → Bool × ℕ
offset_pointer base offset out =
    let (overflow, res) = saddl_overflow (pointer_to_ptrdiff base) offset in
    if overflow
    then (false, out)
    else if ltb_ℤ res (pos 0)
    then (false, out)
    else (true, to_size res)

unfoldable pub ptrdiff_add_2 : ℤ → ℤ → Bool × ℤ
ptrdiff_add_2 a b = let (overflow, r) = saddl_overflow a b in (not overflow, r)

unfoldable pub unsigned_long_add_2 : ℕ → ℕ → Bool × ℕ
unsigned_long_add_2 a b = let (overflow, r) = uaddl_overflow a b in (not overflow, r)

unfoldable pub size_add_2 : ℕ → ℕ → Bool × ℕ
size_add_2 a b = let (overflow, r) = uaddl_overflow a b in (not overflow, r)

unfoldable pub size_subtract_2 : ℕ → ℕ → Bool × ℕ
size_subtract_2 a b = let (overflow, r) = usubl_overflow a b in (not overflow, r)

unfoldable pub size_subtract_3 : ℕ → ℕ → ℕ → ℕ → Bool × ℕ
unfolding size_subtract_2
size_subtract_3 a b c out =
    let (success, ab) = size_subtract_2 a b in
    if not success then (false, out) else size_subtract_2 ab c

unfoldable pub ptrdiff_multiply_2 : ℤ → ℤ → Bool × ℤ
ptrdiff_multiply_2 a b = let (overflow, r) = smull_overflow a b in (not overflow, r)

unfoldable pub ptrdiff_multiply_3 : ℤ → ℤ → ℤ → ℤ → Bool × ℤ
unfolding ptrdiff_multiply_2
ptrdiff_multiply_3 a b c out =
    let (success, ab) = ptrdiff_multiply_2 a b in
    if not success then (false, out) else ptrdiff_multiply_2 ab c

unfoldable pub uint_multiply_2 : ℕ → ℕ → Bool × ℕ
uint_multiply_2 a b = let (overflow, r) = umul_overflow a b in (not overflow, r)

unfoldable pub uint_multiply_3 : ℕ → ℕ → ℕ → ℕ → Bool × ℕ
unfolding uint_multiply_2
uint_multiply_3 a b c out =
    let (success, ab) = uint_multiply_2 a b in
    if not success then (false, out) else uint_multiply_2 ab c

unfoldable pub size_multiply_2 : ℕ → ℕ → Bool × ℕ
size_multiply_2 a b = let (overflow, r) = umull_overflow a b in (not overflow, r)

unfoldable pub size_multiply_3 : ℕ → ℕ → ℕ → ℕ → Bool × ℕ
unfolding size_multiply_2
size_multiply_3 a b c out =
    let (success, ab) = size_multiply_2 a b in
    if not success then (false, out) else size_multiply_2 ab c
