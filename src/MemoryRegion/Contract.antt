-- ===== src/MemoryRegion/Contract.antt =====
-- What the comments of BromiumCoreUtils/BRUMemoryRegion.h promise of the functions.
use bromium_core_utils.Prelude.{
  ℕ, ◌+◌, ◌^◌, ◌<◌, ◌≡◌, ◌⊎◌, inl, inr, ap, not, if◌then◌else◌, ◌↔◌, Bool, true, false, Option,
  some, arith,
}
use bromium_core_utils.Prelude.Int.{ℤ, pos, negsuc}
use bromium_core_utils.Arithmetic.Builtins.{IsPtrdiff}
use bromium_core_utils.Arithmetic.Exactness.{unsigned_long_add_2-cases}
use bromium_core_utils.MemoryRegion.{
  MemoryRegion, ErrorCode, out_of_bounds, get_end, contains_region, sub_region_with_offset,
  sub_region_with_offset_and_error,
}
use bromium_core_utils.MemoryRegion.Containment.{
  IsRegion, Within, Fits, sub_region, contains_region_iff, sub_region_with_offset-cases,
  sub_region_negative,
}

-- The end address; it is possible for the operation to overflow.
abbrev pub GetEnd : MemoryRegion → (out : ℕ) → Bool × ℕ → Type 0
GetEnd r out result =
    (IsRegion r × (result ≡ (true, r.bytes + r.length))) ⊎ (¬ IsRegion r × (result ≡ (false, out)))

-- YES if the second region is fully contained in the first; otherwise NO.
abbrev pub ContainsRegion : (region1 region2 : MemoryRegion) → Bool → Type 0
ContainsRegion region1 region2 result = (result ≡ true) ↔ Within region2 region1

-- The sub-region of this offset and length is fully contained in the region.
abbrev pub IsContained : MemoryRegion → ℤ → ℕ → Type 0
IsContained r (pos n) length = Fits r n length
IsContained r (negsuc n) length = ⊥

-- The base address is calculated with the offset; the length is the one that was asked for, or the
-- remainder of the region.
abbrev pub sub_region_at : MemoryRegion → ℤ → ℕ → MemoryRegion
sub_region_at r (pos n) length = sub_region r n length
sub_region_at r (negsuc n) length = r

-- Fails if the specified region is not fully contained in its parent.
abbrev pub SubRegionWithOffset :
    MemoryRegion → ℤ → ℕ → (out : MemoryRegion) → Bool × MemoryRegion → Type 0
SubRegionWithOffset r offset length out result =
    (IsContained r offset length × (result ≡ (true, sub_region_at r offset length)))
    ⊎ (¬ IsContained r offset length × (result ≡ (false, out)))

-- The same, and the error pointer is set if an error occurs.
abbrev pub SubRegionWithOffsetAndError :
    MemoryRegion
    → ℤ
    → ℕ
    → (out : MemoryRegion) (error : Option ErrorCode) → Bool × MemoryRegion × Option ErrorCode
    → Type 0
SubRegionWithOffsetAndError r offset length out error result =
    (IsContained r offset length × (result ≡ (true, sub_region_at r offset length, error)))
    ⊎ (¬ IsContained r offset length × (result ≡ (false, out, some out_of_bounds)))

get_end_lem : (r : MemoryRegion) (out : ℕ) → GetEnd r out (get_end r out)
unfolding get_end
get_end_lem r out = ground (arith, unsigned_long_add_2-cases r.bytes r.length)

contains_region_lem : (r s : MemoryRegion) → IsRegion r → ContainsRegion r s (contains_region r s)
contains_region_lem r s h =
    let (to, from) = contains_region_iff r s in (λ e. let (w, i) = to e in w, λ w. from (w, h))

sub_region_with_offset_lem :
    (r out : MemoryRegion) (offset : ℤ) (length : ℕ)
    → r.bytes + r.length < 2 ^ 63
    → IsPtrdiff offset
    → SubRegionWithOffset r offset length out (sub_region_with_offset r offset length out)
sub_region_with_offset_lem r out (pos n) length h k =
    sub_region_with_offset-cases r out n length h (omega arith)
sub_region_with_offset_lem r out (negsuc n) length h k =
    inr (λ e. e, sub_region_negative r out n length)

-- The error pointer after a call without it.
abbrev reported : Option ErrorCode → Bool × MemoryRegion → Bool × MemoryRegion × Option ErrorCode
reported error result =
    if not result.0 then (false, result.1, some out_of_bounds) else (true, result.1, error)

sub_region_with_offset_and_error_lem :
    (r out : MemoryRegion) (offset : ℤ) (length : ℕ) (error : Option ErrorCode)
    → r.bytes + r.length < 2 ^ 63
    → IsPtrdiff offset
    → SubRegionWithOffsetAndError r offset length out error
        (sub_region_with_offset_and_error r offset length out error)
unfolding sub_region_with_offset_and_error
sub_region_with_offset_and_error_lem r out offset length error h k =
    elim (sub_region_with_offset_lem r out offset length h k) [
      | inl (c, e) ↦ inl (c, ap (reported error) e)
      | inr (c, e) ↦ inr (c, ap (reported error) e)
    ]

-- The functions do what their comments promise, with the content of the out-parameters after a
-- failure: `BRUMemoryRegionGetEnd` for every region, `BRUMemoryRegionContainsRegion` for a first
-- region that ends below 2^63 and any second one, and the two that make a sub-region for that first
-- region as the parent and every offset that is a ptrdiff_t.
pub regions_documented :
    (r s out : MemoryRegion) (end_out : ℕ) (offset : ℤ) (length : ℕ) (error : Option ErrorCode)
    → r.bytes + r.length < 2 ^ 63
    → IsPtrdiff offset
    → GetEnd s end_out (get_end s end_out)
      × ContainsRegion r s (contains_region r s)
      × SubRegionWithOffset r offset length out (sub_region_with_offset r offset length out)
      × SubRegionWithOffsetAndError r offset length out error
          (sub_region_with_offset_and_error r offset length out error)
regions_documented r s out end_out offset length error h k = (
  get_end_lem s end_out,
  contains_region_lem r s (omega arith),
  sub_region_with_offset_lem r out offset length h k,
  sub_region_with_offset_and_error_lem r out offset length error h k,
)
