-- ===== src/Arithmetic/Documented.antt =====
-- The integer functions of BromiumCoreUtils/BRUArithmetic.h against their comments.
use bromium_core_utils.Prelude.{
  ℕ, ◌*◌, ◌^◌, ◌<◌, ◌≤◌, ◌≡◌, refl, ◌⊎◌, inl, inr, Bool, true, false, arith, dec_lt,
}
use bromium_core_utils.Prelude.Int.{ℤ, pos, negsuc, ◌+ℤ◌, ◌*ℤ◌}
use bromium_core_utils.Arithmetic.Builtins.{size_mod, uint_mod, IsPtrdiff, IsInt32, saddl_overflow}
use bromium_core_utils.Arithmetic.{
  size_to_int32, size_to_glsizei, glsizei_to_size, ptrdiff_to_size, size_to_ptrdiff, offset_pointer,
  ptrdiff_add_2, unsigned_long_add_2, size_add_2, size_subtract_2, size_subtract_3,
  ptrdiff_multiply_2, ptrdiff_multiply_3, uint_multiply_2, uint_multiply_3, size_multiply_2,
  size_multiply_3,
}
use bromium_core_utils.Arithmetic.Exactness.{
  size_add_2-cases, size_subtract_3-cases, ptrdiff_add_2-cases, unsigned_long_add_2-cases,
  size_subtract_2-cases,
}
use bromium_core_utils.Arithmetic.Products.{
  size_multiply_2-cases, uint_multiply_2-cases, ptrdiff_multiply_2-cases,
  size_multiply_3-IsProduct3, uint_multiply_3-IsProduct3, ptrdiff_multiply_3-cases,
}
use bromium_core_utils.Arithmetic.Contract.{
  int32_limit, magnitude, SizeToInt32, SizeToGlsizei, GlsizeiToSize, PtrdiffToSize, SizeToPtrdiff,
  OffsetPointer, PtrdiffAdd2, UnsignedLongAdd2, SizeAdd2, SizeSubtract2, SizeSubtract3,
  PtrdiffMultiply2, PtrdiffMultiply3, UintMultiply2, UintMultiply3, SizeMultiply2, SizeMultiply3,
}

size_to_int32_documented : (a : ℕ) (out : ℤ) → SizeToInt32 a (size_to_int32 a out)
unfolding size_to_int32
size_to_int32_documented a out = ground arith

size_to_glsizei_documented : (a : ℕ) (out : ℤ) → SizeToGlsizei a (size_to_glsizei a out)
unfolding size_to_glsizei
size_to_glsizei_documented a out = ground arith

size_to_ptrdiff_documented :
    (a : ℕ) (out : ℤ) → a < size_mod → SizeToPtrdiff a (size_to_ptrdiff a out)
unfolding size_to_ptrdiff
size_to_ptrdiff_documented a out h = ground arith

glsizei_to_size_documented : (g : ℤ) (out : ℕ) → IsInt32 g → GlsizeiToSize g (glsizei_to_size g out)
unfolding glsizei_to_size
glsizei_to_size_documented (pos n) out h = ground arith
glsizei_to_size_documented (negsuc n) out h = ground arith

-- Beyond INT32_MAX the conversion succeeds.
abbrev pub IsLarge : ℤ → Bool × ℕ → Type 0
IsLarge p r = (n : ℕ) × (int32_limit ≤ n) × (p ≡ pos n) × (r ≡ (true, n))

ptrdiff_to_size_documented :
    (p : ℤ) (out : ℕ)
    → IsPtrdiff p
    → PtrdiffToSize p (ptrdiff_to_size p out) ⊎ IsLarge p (ptrdiff_to_size p out)
unfolding ptrdiff_to_size
ptrdiff_to_size_documented (pos n) out h = elim (dec_lt n int32_limit) [
  | yes small ↦ inl (ground arith)
  | no large ↦ inr (n, omega arith, refl, ground arith)
]
ptrdiff_to_size_documented (negsuc n) out h = ground arith

-- Whatever the out-parameter held: the conversions of a size_t to int32_t, GLsizei and ptrdiff_t,
-- and of a GLsizei to size_t, keep what their comments promise; and that of a ptrdiff_t to size_t
-- does so below 2^31, while from there on it succeeds where its comment says that it does not.
pub conversions_documented :
    (a : ℕ) (g p out : ℤ) (out_size : ℕ)
    → a < size_mod
    → IsInt32 g
    → IsPtrdiff p
    → SizeToInt32 a (size_to_int32 a out)
      × SizeToGlsizei a (size_to_glsizei a out)
      × SizeToPtrdiff a (size_to_ptrdiff a out)
      × GlsizeiToSize g (glsizei_to_size g out_size)
      × (PtrdiffToSize p (ptrdiff_to_size p out_size) ⊎ IsLarge p (ptrdiff_to_size p out_size))
conversions_documented a g p out o h i j = (
  size_to_int32_documented a out,
  size_to_glsizei_documented a out,
  size_to_ptrdiff_documented a out h,
  glsizei_to_size_documented g o i,
  ptrdiff_to_size_documented p o j,
)

ptrdiff_add_2_documented : (a b : ℤ) → PtrdiffAdd2 a b (ptrdiff_add_2 a b)
ptrdiff_add_2_documented a b = ground (arith, ptrdiff_add_2-cases a b)

-- The sums and differences keep what their comments promise, for any two integers, any numbers
-- added, and a number of type size_t from which others are taken.
pub sums_documented :
    (a b : ℤ) (k m n out : ℕ)
    → k < size_mod
    → PtrdiffAdd2 a b (ptrdiff_add_2 a b)
      × UnsignedLongAdd2 m n (unsigned_long_add_2 m n)
      × SizeAdd2 m n (size_add_2 m n)
      × SizeSubtract2 k m (size_subtract_2 k m)
      × SizeSubtract3 k m n (size_subtract_3 k m n out)
sums_documented a b k m n out h = (
  ptrdiff_add_2_documented a b,
  ground (arith, unsigned_long_add_2-cases m n),
  ground (arith, size_add_2-cases m n),
  ground (arith, size_subtract_2-cases k m),
  ground (arith, size_subtract_3-cases k m n out),
)

-- The products keep what their comments promise; but a product of three may be refused also when
-- it fits, and then the product of its first two factors does not fit.
pub products_documented :
    (a b c out_ptrdiff : ℤ) (k m n out : ℕ)
    → PtrdiffMultiply2 a b (ptrdiff_multiply_2 a b)
      × UintMultiply2 k m (uint_multiply_2 k m)
      × SizeMultiply2 k m (size_multiply_2 k m)
      × (PtrdiffMultiply3 a b c (ptrdiff_multiply_3 a b c out_ptrdiff)
          ⊎ ((¬ IsPtrdiff (a *ℤ b)) × ((ptrdiff_multiply_3 a b c out_ptrdiff).0 ≡ false)))
      × (UintMultiply3 k m n (uint_multiply_3 k m n out)
          ⊎ ((uint_mod ≤ k * m) × (n ≡ 0) × ((uint_multiply_3 k m n out).0 ≡ false)))
      × (SizeMultiply3 k m n (size_multiply_3 k m n out)
          ⊎ ((size_mod ≤ k * m) × (n ≡ 0) × ((size_multiply_3 k m n out).0 ≡ false)))
products_documented a b c out_ptrdiff k m n out = (
  ground (arith, ptrdiff_multiply_2-cases a b),
  ground (arith, uint_multiply_2-cases k m),
  ground (arith, size_multiply_2-cases k m),
  ground (arith, ptrdiff_multiply_3-cases a b c out_ptrdiff),
  ground (arith, uint_multiply_3-IsProduct3 k m n out),
  ground (arith, size_multiply_3-IsProduct3 k m n out),
)

-- For an address in the lower half of the address space and any offset the function keeps what its
-- comment promises, except that a sum in the upper half is refused, with the out-parameter as it was.
pub offset_pointer_documented :
    (base out : ℕ) (offset : ℤ)
    → base < 2 ^ 63
    → IsPtrdiff offset
    → OffsetPointer base offset (offset_pointer base offset out)
      ⊎ ((2 ^ 63 ≤ magnitude (pos base +ℤ offset))
          × (offset_pointer base offset out ≡ (false, out)))
unfolding offset_pointer saddl_overflow ◌+ℤ◌
offset_pointer_documented base out (pos n) h k = ground arith
offset_pointer_documented base out (negsuc n) h k = ground arith
