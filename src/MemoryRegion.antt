-- ===== src/MemoryRegion.antt =====
-- BromiumCoreUtils/BRUMemoryRegion.h and BRUMemoryRegion.m: regions of a 64-bit address space. An
-- address is a number; out-parameters are as in `Arithmetic`.
pub mod Containment
pub mod Contract
mod Examples
use bromium_core_utils.Prelude.{
  ℕ, ◌-◌, ◌^◌, Bool, true, false, not, ◌&&◌, ◌||◌, Option, none, some, ltb, ◌==◌, if◌then◌else◌,
}
use bromium_core_utils.Prelude.Int.{ℤ, pos, ltb_ℤ}
use bromium_core_utils.Arithmetic.{
  unsigned_long_add_2, offset_pointer, ptrdiff_to_size, size_subtract_2,
}

pub record MemoryRegion : Type 0 where
  pub bytes : ℕ
  pub length : ℕ

-- `BRUMemoryRegionRemainder`, SIZE_T_MAX.
abbrev pub remainder : ℕ
remainder = 2 ^ 64 - 1

-- `BRUMemoryRegionNull`.
unfoldable pub null : MemoryRegion
null = record { bytes = 0; length = 0 }

unfoldable pub make : ℕ → ℕ → MemoryRegion
make bytes length = record { bytes = bytes; length = length }

unfoldable pub is_null : MemoryRegion → Bool
is_null region = region.bytes == 0 && region.length == 0

-- `BRUMemoryRegionGetEnd`, with the old content of its out-parameter.
unfoldable pub get_end : MemoryRegion → ℕ → Bool × ℕ
get_end region out =
    let (success, end_address) = unsigned_long_add_2 region.bytes region.length in
    if not success then (false, out) else (true, end_address)

unfoldable pub contains_region : MemoryRegion → MemoryRegion → Bool
unfolding get_end
contains_region region1 region2 =
    let (success1, end1) = get_end region1 0 in
    let (success2, end2) = get_end region2 0 in
    if ltb region2.bytes region1.bytes
    then false
    else if not success1 || not success2
    then false
    else if ltb end1 end2
    then false
    else true

-- The last steps of `BRUMemoryRegionSubRegionWithOffset`.
abbrev checked : MemoryRegion → MemoryRegion → MemoryRegion → Bool × MemoryRegion
checked region new_region out =
    if not (contains_region region new_region) then (false, out) else (true, new_region)

unfoldable pub sub_region_with_offset : MemoryRegion → ℤ → ℕ → MemoryRegion → Bool × MemoryRegion
unfolding make
sub_region_with_offset region offset length out =
    let (offset_ok, new_bytes) = offset_pointer region.bytes offset 0 in
    let (size_ok, offset_size) = ptrdiff_to_size offset 0 in
    let (rest_ok, rest) = size_subtract_2 region.length offset_size in
    if ltb_ℤ offset (pos 0)
    then (false, out)
    else if not offset_ok
    then (false, out)
    else if not size_ok
    then (false, out)
    else if length == remainder
    then (if not rest_ok then (false, out) else checked region (make new_bytes rest) out)
    else checked region (make new_bytes length) out

-- `BRUMemoryRegionErrorCode`.
pub data ErrorCode : Type 0 where
  out_of_bounds : ErrorCode

-- `BRUMemoryRegionSubRegionWithOffsetAndError`: the last part is what `error` holds.
unfoldable pub sub_region_with_offset_and_error :
    MemoryRegion → ℤ → ℕ → MemoryRegion → Option ErrorCode → Bool × MemoryRegion × Option ErrorCode
unfolding sub_region_with_offset
sub_region_with_offset_and_error region offset length out error =
    let (success, result) = sub_region_with_offset region offset length out in
    if not success then (false, result, some out_of_bounds) else (true, result, error)
