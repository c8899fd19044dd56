-- ===== src/MemoryRegion/Containment.antt =====
-- Regions contained in regions (BromiumCoreUtils/BRUMemoryRegion.h).
use bromium_core_utils.Prelude.{
  ℕ, ◌+◌, ◌-◌, ◌^◌, ◌<◌, ◌≤◌, ◌≡◌, ◌⊎◌, ◌↔◌, if◌then◌else◌, ◌==◌, Bool, true, false, arith,
}
use bromium_core_utils.Prelude.Int.{ℤ, pos, negsuc}
use bromium_core_utils.Arithmetic.{offset_pointer, size_subtract_2, ptrdiff_to_size}
use bromium_core_utils.Arithmetic.Exactness.{
  offset_pointer-cases, unsigned_long_add_2-cases, size_subtract_2-cases,
}
use bromium_core_utils.MemoryRegion.{
  MemoryRegion, remainder, contains_region, sub_region_with_offset,
}

-- A region that ends within the address space.
abbrev pub IsRegion : MemoryRegion → Type 0
IsRegion r = r.bytes + r.length < 2 ^ 64

-- Every address of the one is an address of the other, ends included.
abbrev pub Within : MemoryRegion → MemoryRegion → Type 0
Within inner outer =
    (outer.bytes ≤ inner.bytes) × (inner.bytes + inner.length ≤ outer.bytes + outer.length)

-- One region contains another exactly when the bytes of the other, its end included, lie within
-- it and the containing region ends within the address space.
pub contains_region_iff :
    (r s : MemoryRegion) → (contains_region r s ≡ true) ↔ (Within s r × IsRegion r)
unfolding contains_region
contains_region_iff r s = (
  ground (
    arith,
    unsigned_long_add_2-cases r.bytes r.length,
    unsigned_long_add_2-cases s.bytes s.length,
  ),
  ground (
    arith,
    unsigned_long_add_2-cases r.bytes r.length,
    unsigned_long_add_2-cases s.bytes s.length,
  ),
)

-- The length that the call asks for, with the remainder written out.
abbrev pub asked_length : MemoryRegion → ℕ → ℕ → ℕ
asked_length r n length = if length == remainder then r.length - n else length

-- The part of the region from `n` on has the length that is asked for.
abbrev pub Fits : MemoryRegion → ℕ → ℕ → Type 0
Fits r n length = n + asked_length r n length ≤ r.length

abbrev pub sub_region : MemoryRegion → ℕ → ℕ → MemoryRegion
sub_region r n length = record { bytes = r.bytes + n; length = asked_length r n length }

-- For a region that ends below 2^63 and an offset from 0 on and below 2^63: when the part of the
-- region from the offset on has the length asked for (BRUMemoryRegionRemainder asks for the rest of
-- the region), the sub-region at that offset with that length is returned; otherwise the call fails
-- and the out-parameter keeps its content.
pub sub_region_with_offset-cases :
    (r out : MemoryRegion) (n length : ℕ)
    → r.bytes + r.length < 2 ^ 63
    → n < 2 ^ 63
    → (Fits r n length
        × (sub_region_with_offset r (pos n) length out ≡ (true, sub_region r n length)))
      ⊎ (¬ Fits r n length × (sub_region_with_offset r (pos n) length out ≡ (false, out)))
unfolding sub_region_with_offset ptrdiff_to_size
sub_region_with_offset-cases r out n length h k = ground (
  arith,
  offset_pointer-cases r.bytes n 0,
  size_subtract_2-cases r.length n,
  contains_region_iff r (record { bytes = r.bytes + n; length = r.length - n }),
  contains_region_iff r (record { bytes = r.bytes + n; length = length }),
)

-- A negative offset is refused, and the out-parameter keeps its content.
pub sub_region_negative :
    (r out : MemoryRegion) (n length : ℕ)
    → sub_region_with_offset r (negsuc n) length out ≡ (false, out)
unfolding sub_region_with_offset
sub_region_negative r out n length = ground arith

-- Refused, with the out-parameter as it was; or a region within `r`, which does not wrap.
abbrev pub IsSafe : MemoryRegion → MemoryRegion → Bool × MemoryRegion → Type 0
IsSafe r out result = (result ≡ (false, out)) ⊎ ((result.0 ≡ true) × Within result.1 r × IsRegion r)

-- For every region, offset and length, also where sums wrap or the address is in the upper half of
-- the address space: a sub-region that is handed out lies within its region, and the region does
-- not wrap; a refusal leaves the out-parameter alone.
pub sub_region_with_offset-IsSafe :
    (r out : MemoryRegion) (offset : ℤ) (length : ℕ)
    → IsSafe r out (sub_region_with_offset r offset length out)
unfolding sub_region_with_offset
sub_region_with_offset-IsSafe r out offset length =
    let bytes = (offset_pointer r.bytes offset 0).1 in
    let rest = (size_subtract_2 r.length (ptrdiff_to_size offset 0).1).1 in
    ground (
      arith,
      contains_region_iff r (record { bytes = bytes; length = rest }),
      contains_region_iff r (record { bytes = bytes; length = length }),
    )
