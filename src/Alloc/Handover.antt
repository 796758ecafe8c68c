-- ===== src/Alloc/Handover.antt =====
-- `HandoverInfo` of src/init/alloc/handover.rs: what the early allocator hands to the memory
-- management that follows it, and `prepare_handover` of src/init/alloc/allocator.rs, which fills it
-- in. Its box is made in Alloc/Service/Takeover.
pub mod Info
pub mod Valid
pub mod Safe
pub mod Prepare
pub mod Groups
pub mod Sort
pub mod Pages
pub mod Queries
pub mod Permissions
pub mod Priority
mod Tests
use Prim.Native.String.{String}
use nt_rustos.Common.{
  ℕ, zero, suc, ◌-◌, ◌/◌, ◌%◌, ◌^◌, Bool, true, false, not, ◌&&◌, ◌||◌, ltb, leb, ◌==◌,
  if◌then◌else◌, List, [], ◌∷◌, ◌++◌, take, drop, replicate, length, min, Option, none, some, add64,
  sub64, add32, bit_or, bit_and,
}
use nt_rustos.Alloc.Purpose
use nt_rustos.Alloc.Purpose.{AllocPurpose}
use nt_rustos.Alloc.Header
use nt_rustos.Alloc.Header.{BlockHeader, is_free, total_size, user_data_addr}
use nt_rustos.Alloc.Stats.{AllocStats}
use nt_rustos.Alloc.Memory.{Memory}
use nt_rustos.Alloc.Early.{State, fuel_of}
pub use nt_rustos.Alloc.Handover.Info.{
  max_tracked_blocks, handover_protocol_version, handover_magic, read, write, read_write,
  AllocatedBlock, end_addr, PerformanceMetrics, AllocatorState, HandoverInfo, tracked, add_blocks,
  no_block, fresh_allocator_state,
}
unfoldable pub use nt_rustos.Alloc.Handover.Info.{
  contains, overlaps_with, calculate_checksum, update_checksum, new,
}

-- The sum of the sizes of the blocks whose purpose passes a test.
abbrev pub sum_where : (AllocPurpose → Bool) → ℕ → List AllocatedBlock → ℕ
sum_where p total [] = total
sum_where p total (b ∷ bs) = sum_where p (if p b.purpose then add64 total b.size else total) bs

unfoldable pub allocated_size : HandoverInfo → ℕ
allocated_size info = sum_where (λ p. true) 0 (tracked info)

unfoldable pub reclaimable_size : HandoverInfo → ℕ
reclaimable_size info = sum_where Purpose.is_reclaimable 0 (tracked info)

unfoldable pub critical_size : HandoverInfo → ℕ
critical_size info = sum_where Purpose.is_critical 0 (tracked info)

unfoldable pub movable_size : HandoverInfo → ℕ
movable_size info = sum_where Purpose.is_movable 0 (tracked info)

-- The loops of `validate`.
unfoldable pub outside_range : ℕ → ℕ → List AllocatedBlock → Bool
outside_range start end [] = false
outside_range start end (b ∷ bs) =
    (ltb b.addr start || ltb end (end_addr b)) || outside_range start end bs

unfoldable pub overlaps_one : AllocatedBlock → List AllocatedBlock → Bool
overlaps_one a [] = false
overlaps_one a (b ∷ bs) = overlaps_with a b || overlaps_one a bs

unfoldable pub overlapping : List AllocatedBlock → Bool
overlapping [] = false
overlapping (b ∷ bs) = overlaps_one b bs || overlapping bs

pub data Validation : Type 0 where
  valid : Validation
  invalid : String → Validation

unfoldable pub validate : HandoverInfo → Validation
validate info =
    if not (info.magic == handover_magic)
    then invalid "Invalid handover magic"
    else if not (info.version == handover_protocol_version)
    then invalid "Unsupported protocol version"
    else if leb info.heap_end info.heap_start
    then invalid "Invalid heap range"
    else if ltb max_tracked_blocks info.allocated_count
    then invalid "Too many allocated blocks"
    else if not (info.checksum == calculate_checksum info)
    then invalid "Checksum validation failed"
    else if outside_range info.heap_start info.heap_end (tracked info)
    then invalid "Block outside heap range"
    else if overlapping (tracked info)
    then invalid "Overlapping blocks detected"
    else if not (allocated_size info == info.statistics.used_size)
    then invalid "Statistics mismatch"
    else valid

-- What `fill_handover` notes of an allocated block.
abbrev pub note : ℕ → BlockHeader → AllocatedBlock
note at h = record {
  addr = user_data_addr at;
  size = h.size;
  purpose = h.purpose;
  alloc_id = h.alloc_id;
  timestamp = h.timestamp;
  permissions = read_write;
  alignment = 8;
}

-- Its loop, with room for `room` more blocks. `none` is a loop that has not ended within its fuel.
unfoldable pub collect_blocks : Memory → ℕ → ℕ → ℕ → ℕ → Option (List AllocatedBlock)
collect_blocks m end zero room at = none
collect_blocks m end (suc fuel) room at =
    let rest : ℕ → Option (List AllocatedBlock) =
      λ room. collect_blocks m end fuel room (add64 at (total_size (m.header at))) in
    if not (ltb at end)
    then some []
    else if is_free (m.header at).status
    then rest room
    else if room == 0
    then some []
    else elim (rest (room - 1)) [ none ↦ none | some bs ↦ some (note at (m.header at) ∷ bs) ]

-- The information once the blocks `bs` are written to the front of the array. The size of the heap
-- is passed where `new` takes its end.
unfoldable pub filled : ℕ → State → List AllocatedBlock → HandoverInfo
unfolding new
filled now s bs =
    let info =
      new now s.early.heap_start (sub64 s.early.heap_end s.early.heap_start) s.early.stats in
    update_checksum (record info {
      allocated_blocks = bs ++ drop (length bs) info.allocated_blocks;
      allocated_count = length bs;
    })

-- `EarlyAllocator::prepare_handover` up to the box that it makes in the end.
unfoldable pub fill_handover : ℕ → State → Option HandoverInfo
unfolding collect_blocks filled
fill_handover now s =
    elim (collect_blocks s.mem s.early.heap_end (fuel_of s) max_tracked_blocks s.early.heap_start) [
      | none ↦ none
      | some bs ↦ some (filled now s bs)
    ]
