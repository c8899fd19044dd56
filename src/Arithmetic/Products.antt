-- ===== src/Arithmetic/Products.antt =====
-- The products of BromiumCoreUtils/BRUArithmetic.h and the exact ones.
use bromium_core_utils.Prelude.{
  ℕ, suc, zero, ◌*◌, ◌<◌, ◌≤◌, ◌≡◌, refl, ◌⊎◌, inl, inr, Bool, true, false, arith,
}
use bromium_core_utils.Prelude.Int.{ℤ, ◌*ℤ◌}
use bromium_core_utils.Arithmetic.Builtins.{
  size_mod, uint_mod, IsPtrdiff, umull_overflow, umul_overflow, smull_overflow,
}
use bromium_core_utils.Arithmetic.Exactness.{reduced_ℤ-cases}
use bromium_core_utils.Arithmetic.{
  size_multiply_2, size_multiply_3, uint_multiply_2, uint_multiply_3, ptrdiff_multiply_2,
  ptrdiff_multiply_3,
}

pub size_multiply_2-cases :
    (a b : ℕ)
    → ((a * b < size_mod) × (size_multiply_2 a b ≡ (true, a * b)))
      ⊎ ((size_mod ≤ a * b) × ((size_multiply_2 a b).0 ≡ false))
unfolding size_multiply_2 umull_overflow
size_multiply_2-cases a b = ground arith

pub uint_multiply_2-cases :
    (a b : ℕ)
    → ((a * b < uint_mod) × (uint_multiply_2 a b ≡ (true, a * b)))
      ⊎ ((uint_mod ≤ a * b) × ((uint_multiply_2 a b).0 ≡ false))
unfolding uint_multiply_2 umul_overflow
uint_multiply_2-cases a b = ground arith

pub ptrdiff_multiply_2-cases :
    (a b : ℤ)
    → (IsPtrdiff (a *ℤ b) × (ptrdiff_multiply_2 a b ≡ (true, a *ℤ b)))
      ⊎ (¬ IsPtrdiff (a *ℤ b) × ((ptrdiff_multiply_2 a b).0 ≡ false))
unfolding ptrdiff_multiply_2 smull_overflow
ptrdiff_multiply_2-cases a b = ground (arith, reduced_ℤ-cases (a *ℤ b))

le-mul : (m n c : ℕ) → m ≤ n → (c ≡ 0) ⊎ (m ≤ n * c)
le-mul m n zero h = inl refl
le-mul m n (suc c) h = inr (grind arith)

-- How the product of three numbers ends: it fits and so does the product of the first two, and the
-- result is exact; or it does not fit and is refused; or it is 0 and is refused all the same,
-- since the product of the first two does not fit.
abbrev pub IsProduct3 : ℕ → (a b c : ℕ) → Bool × ℕ → Type 0
IsProduct3 m a b c r =
    ((a * b < m) × (a * b * c < m) × (r ≡ (true, a * b * c)))
    ⊎ (((m ≤ a * b * c) × (r.0 ≡ false)) ⊎ ((c ≡ 0) × (m ≤ a * b) × (r.0 ≡ false)))

-- The product of three numbers as size_t is exact when it and the product of the first two fit;
-- it reports failure when the product does not fit, and also when the product is 0 because the
-- third factor is and the product of the first two does not fit.
pub size_multiply_3-IsProduct3 :
    (a b c out : ℕ) → IsProduct3 size_mod a b c (size_multiply_3 a b c out)
unfolding size_multiply_3
size_multiply_3-IsProduct3 a b c out =
    ground
      (arith, size_multiply_2-cases a b, size_multiply_2-cases (a * b) c, le-mul size_mod (a * b) c)

-- The same for 32-bit unsigned integers: exact when the product and that of the first two factors
-- fit; failure when the product does not fit, or is 0 by its third factor and the product of the
-- first two does not fit.
pub uint_multiply_3-IsProduct3 :
    (a b c out : ℕ) → IsProduct3 uint_mod a b c (uint_multiply_3 a b c out)
unfolding uint_multiply_3
uint_multiply_3-IsProduct3 a b c out =
    ground
      (arith, uint_multiply_2-cases a b, uint_multiply_2-cases (a * b) c, le-mul uint_mod (a * b) c)

-- The product of three integers is exact when it and the product of the first two are in the
-- range of ptrdiff_t, and otherwise reports failure.
pub ptrdiff_multiply_3-cases :
    (a b c out : ℤ)
    → (IsPtrdiff (a *ℤ b)
        × IsPtrdiff (a *ℤ b *ℤ c)
        × (ptrdiff_multiply_3 a b c out ≡ (true, a *ℤ b *ℤ c)))
      ⊎ (((¬ IsPtrdiff (a *ℤ b)) ⊎ (¬ IsPtrdiff (a *ℤ b *ℤ c)))
          × ((ptrdiff_multiply_3 a b c out).0 ≡ false))
unfolding ptrdiff_multiply_3
ptrdiff_multiply_3-cases a b c out =
    ground (arith, ptrdiff_multiply_2-cases a b, ptrdiff_multiply_2-cases (a *ℤ b) c)
