-- ===== src/Arithmetic/Builtins.antt =====
-- What BromiumCoreUtils/BRUArithmetic.h uses of the compiler, for a 64-bit target: the casts
-- between integer types, and the `__builtin_*_overflow` operations, which store the exact result
-- reduced to the type and tell whether that changed it.
use bromium_core_utils.Prelude.{
  ℕ, ◌+◌, ◌-◌, ◌*◌, ◌%◌, ◌^◌, ◌<◌, Bool, not, ltb, ◌==◌, if◌then◌else◌,
}
use bromium_core_utils.Prelude.Int.{ℤ, pos, negsuc, ◌+ℤ◌, ◌*ℤ◌, eqb_ℤ}

abbrev pub size_mod : ℕ
size_mod = 2 ^ 64

abbrev pub uint_mod : ℕ
uint_mod = 2 ^ 32

abbrev pub int32_max : ℕ
int32_max = 2 ^ 31 - 1

abbrev pub ptrdiff_max : ℕ
ptrdiff_max = 2 ^ 63 - 1

-- The ranges of the types.
abbrev pub IsInt32 : ℤ → Type 0
IsInt32 (pos n) = n < 2 ^ 31
IsInt32 (negsuc n) = n < 2 ^ 31

abbrev pub IsPtrdiff : ℤ → Type 0
IsPtrdiff (pos n) = n < 2 ^ 63
IsPtrdiff (negsuc n) = n < 2 ^ 63

-- The integer for a bit pattern of 64 bits, and the pattern of an integer.
abbrev pub signed : ℕ → ℤ
signed w = if ltb w (2 ^ 63) then pos w else negsuc (2 ^ 64 - 1 - w)

abbrev pub pattern_of : ℤ → ℕ
pattern_of (pos n) = n % 2 ^ 64
pattern_of (negsuc n) = 2 ^ 64 - 1 - n % 2 ^ 64

-- The casts.
abbrev pub to_int32 : ℕ → ℤ
to_int32 a = let w = a % 2 ^ 32 in if ltb w (2 ^ 31) then pos w else negsuc (2 ^ 32 - 1 - w)

abbrev pub to_size : ℤ → ℕ
to_size = pattern_of

abbrev pub to_ptrdiff : ℕ → ℤ
to_ptrdiff a = signed (a % 2 ^ 64)

abbrev pub pointer_to_ptrdiff : ℕ → ℤ
pointer_to_ptrdiff p = signed (p % 2 ^ 64)

abbrev pub wrap : ℤ → ℤ
wrap a = signed (pattern_of a)

-- `(overflow, result)` of an exact result.
abbrev pub reduced : ℕ → ℕ → Bool × ℕ
reduced modulus exact = let r = exact % modulus in (not (r == exact), r)

abbrev pub reduced_ℤ : ℤ → Bool × ℤ
reduced_ℤ exact = let r = wrap exact in (not (eqb_ℤ r exact), r)

unfoldable pub uaddl_overflow : ℕ → ℕ → Bool × ℕ
uaddl_overflow a b = reduced size_mod (a + b)

unfoldable pub umull_overflow : ℕ → ℕ → Bool × ℕ
umull_overflow a b = reduced size_mod (a * b)

unfoldable pub umul_overflow : ℕ → ℕ → Bool × ℕ
umul_overflow a b = reduced uint_mod (a * b)

-- A negative difference does not fit; it is stored with the modulus added.
unfoldable pub usubl_overflow : ℕ → ℕ → Bool × ℕ
usubl_overflow a b = (ltb a b, (a + size_mod - b) % size_mod)

unfoldable pub saddl_overflow : ℤ → ℤ → Bool × ℤ
saddl_overflow a b = reduced_ℤ (a +ℤ b)

unfoldable pub smull_overflow : ℤ → ℤ → Bool × ℤ
smull_overflow a b = reduced_ℤ (a *ℤ b)
