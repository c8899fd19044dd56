-- ===== src/MemoryRegion/Examples.antt =====
-- A region of 256 bytes at address 4096 (BromiumCoreUtils/BRUMemoryRegion.h).
use bromium_core_utils.Prelude.{◌≡◌, ◌⊎◌, ◌↔◌, true, false, none, arith}
use bromium_core_utils.Prelude.Int.{pos, negsuc}
use bromium_core_utils.MemoryRegion.{
  MemoryRegion, get_end, contains_region, sub_region_with_offset, sub_region_with_offset_and_error,
}
use bromium_core_utils.MemoryRegion.Containment.{
  Within, IsRegion, Fits, IsSafe, sub_region, contains_region_iff, sub_region_with_offset-cases,
  sub_region_with_offset-IsSafe,
}
use bromium_core_utils.MemoryRegion.Contract.{
  GetEnd, ContainsRegion, SubRegionWithOffset, SubRegionWithOffsetAndError, regions_documented,
}

abbrev page : MemoryRegion
page = record { bytes = 4096; length = 256 }

abbrev head : MemoryRegion
head = record { bytes = 4096; length = 16 }

contains_region_example : (contains_region page head ≡ true) ↔ (Within head page × IsRegion page)
contains_region_example = contains_region_iff page head

sub_region_with_offset_example :
    (Fits page 16 32
      × (sub_region_with_offset page (pos 16) 32 head ≡ (true, sub_region page 16 32)))
    ⊎ (¬ Fits page 16 32 × (sub_region_with_offset page (pos 16) 32 head ≡ (false, head)))
sub_region_with_offset_example =
    sub_region_with_offset-cases page head 16 32 (omega arith) (omega arith)

sub_region_IsSafe_example : IsSafe page head (sub_region_with_offset page (negsuc 3) 32 head)
sub_region_IsSafe_example = sub_region_with_offset-IsSafe page head (negsuc 3) 32

regions_documented_example :
    GetEnd head 5 (get_end head 5)
    × ContainsRegion page head (contains_region page head)
    × SubRegionWithOffset page (pos 16) 32 head (sub_region_with_offset page (pos 16) 32 head)
    × SubRegionWithOffsetAndError page
        (pos 16)
        32
        head
        none
        (sub_region_with_offset_and_error page (pos 16) 32 head none)
regions_documented_example =
    regions_documented page head head 5 (pos 16) 32 none (omega arith) (omega arith)
