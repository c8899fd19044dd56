-- ===== src/Arithmetic/Examples.antt =====
-- Concrete arguments of the functions of BromiumCoreUtils/BRUArithmetic.h.
use bromium_core_utils.Prelude.{
  ℕ, ◌+◌, ◌-◌, ◌*◌, ◌^◌, ◌<◌, ◌≤◌, ◌≡◌, refl, ◌⊎◌, Bool, true, false, Option, none, some, arith,
  sym, ap, ◌∙◌, if◌then◌else◌, ltb, suc,
}
use bromium_core_utils.Prelude.Int.{ℤ, pos, negsuc, ◌+ℤ◌, ◌*ℤ◌, ◌≤ℤ◌, ltb_ℤ}
use bromium_core_utils.Arithmetic.{
  size_to_int32, unsigned_long_add_2, size_add_2, size_subtract_2, ptrdiff_multiply_2,
  uint_multiply_2, uint_multiply_3, size_multiply_2, size_to_glsizei, glsizei_to_size,
  ptrdiff_to_size, size_to_ptrdiff, offset_pointer, size_subtract_3, size_multiply_3,
  ptrdiff_multiply_3, ptrdiff_add_2,
}
use bromium_core_utils.Arithmetic.Builtins.{size_mod, uint_mod, IsPtrdiff}
use bromium_core_utils.Arithmetic.Conversions.{size-ptrdiff_round_trip, glsizei-size_round_trip}
use bromium_core_utils.Arithmetic.Exactness.{
  size_subtract_3-cases, offset_pointer-cases, ptrdiff_add_2-cases,
}
use bromium_core_utils.Arithmetic.Products.{
  IsProduct3, size_multiply_3-IsProduct3, ptrdiff_multiply_3-cases,
}
use bromium_core_utils.Arithmetic.Floating.{
  Floats, magnitude, conversions_nan, double_to_uint32, double_to_int32, float_to_int32,
  double_to_size,
}
use bromium_core_utils.Arithmetic.Contract.{
  SizeToInt32, SizeToGlsizei, SizeToPtrdiff, GlsizeiToSize, PtrdiffToSize, PtrdiffAdd2,
  UnsignedLongAdd2, SizeAdd2, SizeSubtract2, SizeSubtract3, PtrdiffMultiply2, UintMultiply2,
  SizeMultiply2, PtrdiffMultiply3, UintMultiply3, SizeMultiply3,
}
use bromium_core_utils.Arithmetic.Documented.{
  IsLarge, conversions_documented, sums_documented, products_documented,
}
use bromium_core_utils.Arithmetic.Cgfloat.{
  DoubleToUint32, CgfloatToUint32, FloatToInt32, DoubleToInt32, CgfloatToInt32, CgfloatToGlsizei,
  DoubleToSize, CgfloatToSize, cgfloat_to_uint32, cgfloat_to_int32, cgfloat_to_glsizei,
  cgfloat_to_size, floating_documented,
}

size-ptrdiff_round_trip_example :
    ((2 ^ 62 < 2 ^ 63)
      × ((size_to_ptrdiff (2 ^ 62) (pos 7)).0 ≡ true)
      × (ptrdiff_to_size (size_to_ptrdiff (2 ^ 62) (pos 7)).1 5 ≡ (true, 2 ^ 62)))
    ⊎ ((2 ^ 63 ≤ 2 ^ 62) × (size_to_ptrdiff (2 ^ 62) (pos 7) ≡ (false, pos 7)))
size-ptrdiff_round_trip_example = size-ptrdiff_round_trip (2 ^ 62) 5 (pos 7) (omega arith)

glsizei-size_round_trip_example :
    (((glsizei_to_size (pos 640) 5).0 ≡ true)
      × (size_to_glsizei (glsizei_to_size (pos 640) 5).1 (pos 7) ≡ (true, pos 640)))
    ⊎ (glsizei_to_size (pos 640) 5 ≡ (false, 5))
glsizei-size_round_trip_example = glsizei-size_round_trip (pos 640) (pos 7) 5 (omega arith)

size_subtract_3_example :
    ((3 + 4 ≤ 10) × (size_subtract_3 10 3 4 9 ≡ (true, 10 - 3 - 4)))
    ⊎ ((10 < 3 + 4) × ((size_subtract_3 10 3 4 9).0 ≡ false))
size_subtract_3_example = size_subtract_3-cases 10 3 4 9 (omega arith)

ptrdiff_add_2_example :
    (IsPtrdiff (pos (2 ^ 62) +ℤ pos (2 ^ 62))
      × (ptrdiff_add_2 (pos (2 ^ 62)) (pos (2 ^ 62)) ≡ (true, pos (2 ^ 62) +ℤ pos (2 ^ 62))))
    ⊎ (¬ IsPtrdiff (pos (2 ^ 62) +ℤ pos (2 ^ 62))
        × ((ptrdiff_add_2 (pos (2 ^ 62)) (pos (2 ^ 62))).0 ≡ false))
ptrdiff_add_2_example = ptrdiff_add_2-cases (pos (2 ^ 62)) (pos (2 ^ 62))

offset_pointer_example :
    ((4096 < 2 ^ 63) × (4096 + 16 < 2 ^ 63) × (offset_pointer 4096 (pos 16) 9 ≡ (true, 4096 + 16)))
    ⊎ (((4096 + 16 < 2 ^ 64) × (2 ^ 63 ≤ 4096 + 16) × (offset_pointer 4096 (pos 16) 9 ≡ (false, 9)))
        ⊎ ((2 ^ 64 ≤ 4096 + 16) × (offset_pointer 4096 (pos 16) 9 ≡ (true, 4096 + 16 - 2 ^ 64))))
offset_pointer_example = offset_pointer-cases 4096 16 9 (omega arith) (omega arith)

size_multiply_3_example : IsProduct3 size_mod 640 480 4 (size_multiply_3 640 480 4 0)
size_multiply_3_example = size_multiply_3-IsProduct3 640 480 4 0

ptrdiff_multiply_3_example :
    (IsPtrdiff (negsuc 2 *ℤ pos 5)
      × IsPtrdiff (negsuc 2 *ℤ pos 5 *ℤ pos 7)
      × (ptrdiff_multiply_3 (negsuc 2) (pos 5) (pos 7) (pos 0)
          ≡ (true, negsuc 2 *ℤ pos 5 *ℤ pos 7)))
    ⊎ (((¬ IsPtrdiff (negsuc 2 *ℤ pos 5)) ⊎ (¬ IsPtrdiff (negsuc 2 *ℤ pos 5 *ℤ pos 7)))
        × ((ptrdiff_multiply_3 (negsuc 2) (pos 5) (pos 7) (pos 0)).0 ≡ false))
ptrdiff_multiply_3_example = ptrdiff_multiply_3-cases (negsuc 2) (pos 5) (pos 7) (pos 0)

-- Numbers with no fraction, and NaN.
data Number : Type 0 where
  nan : Number
  whole : ℤ → Number

abbrev number_lt : Number → Number → Bool
number_lt nan y = false
number_lt (whole a) nan = false
number_lt (whole a) (whole b) = ltb_ℤ a b

abbrev number_is_nan : Number → Bool
number_is_nan nan = true
number_is_nan (whole a) = false

abbrev number_integral : Number → Option ℤ
number_integral nan = none
number_integral (whole a) = some a

-- Integers beyond `exact` are rounded towards zero.
abbrev rounded : (exact : ℕ) → ℤ → Number
rounded exact (pos n) = whole (pos (if ltb exact n then exact else n))
rounded exact (negsuc n) = whole (if ltb exact (suc n) then negsuc (exact - 1) else negsuc n)

rounded_exact : (exact : ℕ) (n : ℤ) → magnitude n ≤ exact → rounded exact n ≡ whole n
rounded_exact exact (pos n) h = ground arith
rounded_exact exact (negsuc n) h = ground arith

whole_between :
    (x : Number) (lo hi : ℤ)
    → number_is_nan x ≡ false
    → number_lt x (whole lo) ≡ false
    → number_lt (whole hi) x ≡ false
    → (n : ℤ) × (number_integral x ≡ some n) × (lo ≤ℤ n) × (n ≤ℤ hi)
whole_between nan lo hi h a b = absurd (ground arith)
whole_between (whole n) lo hi h a b = (n, refl, ground arith, ground arith)

number_integral_between :
    (exact : ℕ) (x : Number) (lo hi : ℤ)
    → magnitude lo ≤ exact
    → magnitude hi ≤ exact
    → number_is_nan x ≡ false
    → number_lt x (rounded exact lo) ≡ false
    → number_lt (rounded exact hi) x ≡ false
    → (n : ℤ) × (number_integral x ≡ some n) × (lo ≤ℤ n) × (n ≤ℤ hi)
number_integral_between exact x lo hi u v h a b =
    whole_between x lo hi h (ap (number_lt x) (sym (rounded_exact exact lo u)) ∙ a)
      (ap (λ y. number_lt y x) (sym (rounded_exact exact hi v)) ∙ b)

number_lt_nan :
    (x y : Number) → number_is_nan x ≡ true → (number_lt x y ≡ false) × (number_lt y x ≡ false)
number_lt_nan x y h = ground arith

number_integral_nan : (x : Number) → number_is_nan x ≡ true → number_integral x ≡ none
number_integral_nan x h = ground arith

-- Integers, of which those up to `exact` are represented, and NaN.
abbrev numbers_to : ℕ → Floats
numbers_to exact = record {
  Float = Number;
  lt = number_lt;
  of_ℤ = rounded exact;
  exact_max = exact;
  is_nan = number_is_nan;
  integral = number_integral;
  integral_between = number_integral_between exact;
  lt_nan = number_lt_nan;
  integral_nan = number_integral_nan;
}

abbrev floats : Floats
floats = numbers_to (2 ^ 24)

abbrev numbers : Floats
numbers = numbers_to (2 ^ 53)

conversions_nan_example :
    (double_to_uint32 numbers nan (pos 7) ≡ none)
    × (double_to_int32 numbers nan (pos 7) ≡ none)
    × (float_to_int32 numbers nan (pos 7) ≡ none)
    × (double_to_size numbers nan (pos 7) ≡ none)
conversions_nan_example = conversions_nan numbers nan (pos 7) refl

conversions_documented_example :
    SizeToInt32 (2 ^ 40) (size_to_int32 (2 ^ 40) (pos 7))
    × SizeToGlsizei (2 ^ 40) (size_to_glsizei (2 ^ 40) (pos 7))
    × SizeToPtrdiff (2 ^ 40) (size_to_ptrdiff (2 ^ 40) (pos 7))
    × GlsizeiToSize (negsuc 2) (glsizei_to_size (negsuc 2) 5)
    × (PtrdiffToSize (pos (2 ^ 40)) (ptrdiff_to_size (pos (2 ^ 40)) 5)
        ⊎ IsLarge (pos (2 ^ 40)) (ptrdiff_to_size (pos (2 ^ 40)) 5))
conversions_documented_example =
    conversions_documented (2 ^ 40) (negsuc 2) (pos (2 ^ 40)) (pos 7) 5 (omega arith) (omega arith)
      (omega arith)

sums_documented_example :
    PtrdiffAdd2 (pos 5) (negsuc 8) (ptrdiff_add_2 (pos 5) (negsuc 8))
    × UnsignedLongAdd2 (2 ^ 63) (2 ^ 63) (unsigned_long_add_2 (2 ^ 63) (2 ^ 63))
    × SizeAdd2 (2 ^ 63) (2 ^ 63) (size_add_2 (2 ^ 63) (2 ^ 63))
    × SizeSubtract2 10 (2 ^ 63) (size_subtract_2 10 (2 ^ 63))
    × SizeSubtract3 10 (2 ^ 63) (2 ^ 63) (size_subtract_3 10 (2 ^ 63) (2 ^ 63) 9)
sums_documented_example = sums_documented (pos 5) (negsuc 8) 10 (2 ^ 63) (2 ^ 63) 9 (omega arith)

abbrev four : ℕ
four = 4

products_documented_example :
    PtrdiffMultiply2 (negsuc 2) (pos 5) (ptrdiff_multiply_2 (negsuc 2) (pos 5))
    × UintMultiply2 640 480 (uint_multiply_2 640 480)
    × SizeMultiply2 640 480 (size_multiply_2 640 480)
    × (PtrdiffMultiply3
          (negsuc 2)
          (pos 5)
          (pos 7)
          (ptrdiff_multiply_3 (negsuc 2) (pos 5) (pos 7) (pos 0))
        ⊎ ((¬ IsPtrdiff (negsuc 2 *ℤ pos 5))
            × ((ptrdiff_multiply_3 (negsuc 2) (pos 5) (pos 7) (pos 0)).0 ≡ false)))
    × (UintMultiply3 640 480 four (uint_multiply_3 640 480 four 0)
        ⊎ ((uint_mod ≤ 640 * 480) × (four ≡ 0) × ((uint_multiply_3 640 480 four 0).0 ≡ false)))
    × (SizeMultiply3 640 480 four (size_multiply_3 640 480 four 0)
        ⊎ ((size_mod ≤ 640 * 480) × (four ≡ 0) × ((size_multiply_3 640 480 four 0).0 ≡ false)))
products_documented_example = products_documented (negsuc 2) (pos 5) (pos 7) (pos 0) 640 480 four 0

abbrev minus_five : Number
minus_five = whole (negsuc 4)

floating_documented_example :
    DoubleToUint32 numbers minus_five (pos 7) (double_to_uint32 numbers minus_five (pos 7))
    × CgfloatToUint32 numbers minus_five (pos 7) (cgfloat_to_uint32 numbers minus_five (pos 7))
    × FloatToInt32 floats minus_five (pos 7) (float_to_int32 floats minus_five (pos 7))
    × DoubleToInt32 numbers minus_five (pos 7) (double_to_int32 numbers minus_five (pos 7))
    × CgfloatToInt32 numbers minus_five (pos 7) (cgfloat_to_int32 numbers minus_five (pos 7))
    × CgfloatToGlsizei numbers minus_five (pos 7) (cgfloat_to_glsizei numbers minus_five (pos 7))
    × DoubleToSize numbers minus_five (pos 7) (double_to_size numbers minus_five (pos 7))
    × CgfloatToSize numbers minus_five (pos 7) (cgfloat_to_size numbers minus_five (pos 7))
floating_documented_example =
    floating_documented floats numbers minus_five minus_five (pos 7) refl refl refl refl
