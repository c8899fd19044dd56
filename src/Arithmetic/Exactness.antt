-- ===== src/Arithmetic/Exactness.antt =====
-- Sums and differences of BromiumCoreUtils/BRUArithmetic.h and the exact ones.
use bromium_core_utils.Prelude.{ℕ, ◌+◌, ◌-◌, ◌^◌, ◌<◌, ◌≤◌, ◌≡◌, ◌⊎◌, true, false, arith}
use bromium_core_utils.Prelude.Int.{ℤ, pos, negsuc, ◌+ℤ◌}
use bromium_core_utils.Arithmetic.Builtins.{
  size_mod, IsPtrdiff, reduced_ℤ, uaddl_overflow, usubl_overflow, saddl_overflow,
}
use bromium_core_utils.Arithmetic.{
  offset_pointer, ptrdiff_add_2, size_add_2, size_subtract_2, size_subtract_3, unsigned_long_add_2,
}

pub size_add_2-cases :
    (a b : ℕ)
    → ((a + b < size_mod) × (size_add_2 a b ≡ (true, a + b)))
      ⊎ ((size_mod ≤ a + b) × ((size_add_2 a b).0 ≡ false))
unfolding size_add_2 uaddl_overflow
size_add_2-cases a b = ground arith

-- For an `a` of type size_t: the difference of three is exact when `b + c ≤ a`, and it reports
-- failure otherwise.
pub size_subtract_3-cases :
    (a b c out : ℕ)
    → a < size_mod
    → ((b + c ≤ a) × (size_subtract_3 a b c out ≡ (true, a - b - c)))
      ⊎ ((a < b + c) × ((size_subtract_3 a b c out).0 ≡ false))
unfolding size_subtract_3 usubl_overflow
size_subtract_3-cases a b c out h = ground arith

pub reduced_ℤ-cases :
    (a : ℤ)
    → (IsPtrdiff a × (reduced_ℤ a ≡ (false, a))) ⊎ (¬ IsPtrdiff a × ((reduced_ℤ a).0 ≡ true))
reduced_ℤ-cases (pos n) = ground arith
reduced_ℤ-cases (negsuc n) = ground arith

-- The sum of two integers is exact when it is in the range of ptrdiff_t, and reports failure
-- otherwise.
pub ptrdiff_add_2-cases :
    (a b : ℤ)
    → (IsPtrdiff (a +ℤ b) × (ptrdiff_add_2 a b ≡ (true, a +ℤ b)))
      ⊎ (¬ IsPtrdiff (a +ℤ b) × ((ptrdiff_add_2 a b).0 ≡ false))
unfolding ptrdiff_add_2 saddl_overflow
ptrdiff_add_2-cases a b = ground (arith, reduced_ℤ-cases (a +ℤ b))

-- An address `p` and an offset `n` of at least 0 give the sum when it is below 2^63 (so `p` is
-- too), are refused, with the out-parameter as it was, when the sum is an address in the upper
-- half of the address space, and give the sum reduced by 2^64 when it is beyond the address
-- space.
pub offset_pointer-cases :
    (p : ℕ) (n : ℕ) (out : ℕ)
    → p < 2 ^ 64
    → n < 2 ^ 63
    → ((p < 2 ^ 63) × (p + n < 2 ^ 63) × (offset_pointer p (pos n) out ≡ (true, p + n)))
      ⊎ (((p + n < 2 ^ 64) × (2 ^ 63 ≤ p + n) × (offset_pointer p (pos n) out ≡ (false, out)))
          ⊎ ((2 ^ 64 ≤ p + n) × (offset_pointer p (pos n) out ≡ (true, p + n - 2 ^ 64))))
unfolding offset_pointer saddl_overflow ◌+ℤ◌
offset_pointer-cases p n out h k = ground arith

pub unsigned_long_add_2-cases :
    (a b : ℕ)
    → ((a + b < size_mod) × (unsigned_long_add_2 a b ≡ (true, a + b)))
      ⊎ ((size_mod ≤ a + b) × ((unsigned_long_add_2 a b).0 ≡ false))
unfolding unsigned_long_add_2 uaddl_overflow
unsigned_long_add_2-cases a b = ground arith

pub size_subtract_2-cases :
    (a b : ℕ)
    → a < size_mod
    → ((b ≤ a) × (size_subtract_2 a b ≡ (true, a - b)))
      ⊎ ((a < b) × ((size_subtract_2 a b).0 ≡ false))
unfolding size_subtract_2 usubl_overflow
size_subtract_2-cases a b h = ground arith
