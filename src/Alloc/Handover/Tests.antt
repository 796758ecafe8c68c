-- ===== src/Alloc/Handover/Tests.antt =====
-- The handover of a heap of three blocks.
use mathlib.Core.List.{Permᴰ}
use nt_rustos.Common.{ℕ, ◌≡◌, some, arith, List, [], ◌∷◌, ◌++◌, replicate, refl, take, Option, none}
use nt_rustos.Alloc.Purpose.{AllocPurpose}
use nt_rustos.Alloc.Stats
use nt_rustos.Alloc.Early.Sample.{three_blocks, three, three-Inv}
use nt_rustos.Alloc.Handover
use nt_rustos.Alloc.Handover.{
  HandoverInfo, valid, invalid, validate, tracked, allocated_size, calculate_checksum,
  fill_handover, AllocatedBlock, no_block, update_checksum,
}
use nt_rustos.Alloc.Handover.Safe.{Covered, Separate, validate-Separate}
use nt_rustos.Alloc.Handover.Sort.{Ascending, bubble_sort, bubble_pass}
use nt_rustos.Alloc.Handover.Queries.{range, priority_of, blocks_by_priority}
use nt_rustos.Alloc.Handover.Priority.{blocks_by_priority-Ascending}
use nt_rustos.Alloc.Handover.Prepare.{noted, fill_handover-noted, fill_handover-range}

abbrev empty_info : HandoverInfo
empty_info = Handover.new 7 4096 8192 (Stats.new 4096)

fill_handover-noted_example :
    (info : HandoverInfo) × (fill_handover 7 three_blocks ≡ some info)
    × (tracked info ≡ noted three_blocks.mem 4096 three)
    × (allocated_size info ≡ info.statistics.used_size)
fill_handover-noted_example = fill_handover-noted 7 three_blocks three three-Inv (omega arith)

fill_handover-range_example :
    (info : HandoverInfo) × (fill_handover 7 three_blocks ≡ some info)
    × (validate info ≡ invalid "Invalid heap range")
fill_handover-range_example =
    fill_handover-range 7 three_blocks three three-Inv (omega arith) (omega arith)

-- A block of 64 bytes at an address, for a purpose.
abbrev block_for : ℕ → AllocPurpose → AllocatedBlock
block_for addr purpose = record no_block { addr = addr; size = 64; purpose = purpose }

-- Testing has the lowest priority, the page tables the highest.
abbrev three_tracked : HandoverInfo
three_tracked = record empty_info {
  allocated_blocks =
      block_for 4144 AllocPurpose.testing
      ∷ block_for 4256 AllocPurpose.page_table
      ∷ block_for 4368 AllocPurpose.user_data
      ∷ replicate 509 no_block;
  allocated_count = 3;
}

abbrev first_three : Option (List ℕ) → List ℕ
first_three none = []
first_three (some xs) = take 3 xs

by_priority_test : first_three (blocks_by_priority three_tracked) ≡ 1 ∷ 2 ∷ 0 ∷ []
unfolding blocks_by_priority bubble_sort bubble_pass priority_of nt_rustos.Alloc.Purpose.priority
by_priority_test = refl

blocks_by_priority-Ascending_example :
    (order : List ℕ) × (blocks_by_priority three_tracked ≡ some (order ++ replicate 509 0))
    × Permᴰ (range 0 3) order
    × Ascending (priority_of three_tracked) order
blocks_by_priority-Ascending_example = blocks_by_priority-Ascending three_tracked (omega arith)

-- The three blocks, with the number of their bytes and the right checksum.
abbrev right_tracked : HandoverInfo
right_tracked = update_checksum (record three_tracked {
  statistics = record (Stats.new 4096) { used_size = allocated_size three_tracked };
})

right_is_valid : validate right_tracked ≡ valid
unfolding validate update_checksum calculate_checksum Handover.new allocated_size
    Handover.outside_range Handover.overlapping Handover.overlaps_one Handover.overlaps_with
    Stats.new
right_is_valid = refl

validate-Separate_example :
    Covered 4096 8192 (tracked right_tracked) × Separate (tracked right_tracked)
unfolding update_checksum Handover.new
validate-Separate_example =
    validate-Separate right_tracked (omega arith, (omega arith, (omega arith, tt))) right_is_valid
