-- ===== src/Alloc/Early.antt =====
-- `EarlyAllocator` of src/init/alloc/allocator.rs: a first-fit allocator on a doubly linked list of
-- the free blocks, in the order of their addresses. An operation takes the allocator with the
-- memory that it owns. A loop runs on fuel, and `none` is a loop that has not ended within it.
pub mod Allocator
pub mod FreeList
pub mod Chain
pub mod Links
pub mod Layout
pub mod Counts
pub mod Invariant
pub mod Align
pub mod Find
pub mod Take
pub mod TakeWhole
pub mod TakeSplit
pub mod TakeBlock
pub mod Allocate
pub mod Absorb
pub mod MergeNext
pub mod MergePrev
pub mod Coalesce
pub mod Refuse
pub mod Release
pub mod Integrity
pub mod Sequence
pub mod Persist
pub mod Scan
pub mod InUse
pub mod Tidy
pub mod Client
pub mod Apart
pub mod Sample
mod Tests
pub use nt_rustos.Common.{◌>>=◌}
use nt_rustos.Common.{ℕ, zero, suc, ◌+◌, ◌-◌, ◌*◌, ◌^◌, max, bit_and, add64, sub64}
use nt_rustos.Common.{
  Bool, true, false, not, ◌&&◌, ◌||◌, Option, none, some, ltb, leb, ◌==◌, if◌then◌else◌,
}
use nt_rustos.Alloc.Purpose.{AllocPurpose}
use nt_rustos.Alloc.Header
use nt_rustos.Alloc.Header.{
  BlockHeader, BlockStatus, free, allocated, is_free, header_size, total_size,
}
use nt_rustos.Alloc.Stats
use nt_rustos.Alloc.Stats.{AllocStats}
use nt_rustos.Alloc.Memory
use nt_rustos.Alloc.Memory.{Memory, FreeBlock, null, free_block_size}
pub use nt_rustos.Alloc.Early.Allocator.{
  AllocError, Result, EarlyAllocator, State, on_mem, on_stats, set_head, min_block_size,
  min_heap_size, is_power_of_two, header_of, node_of, ok, err, not_initialized, already_initialized,
}
unfoldable pub use nt_rustos.Alloc.Early.Allocator.{fresh_state, new}
pub use nt_rustos.Alloc.Early.FreeList.{required_space, fuel_of}
unfoldable pub use nt_rustos.Alloc.Early.FreeList.{
  calculate_aligned_addr, find_free_block, remove_from_free_list, insert_position, insert_first,
  insert_after, insert_into_free_list,
}

-- The new header of a block that is handed out: `status`, `alloc_id`, time stamp and checksum.
abbrev pub mark_allocated : ℕ → State → State
mark_allocated block s =
    let h = record (s.mem.header block) { status = allocated; alloc_id = s.early.next_alloc_id } in
    let h = Header.update_checksum (Header.update_timestamp s.mem.clock h) in
    record {
      mem = Memory.tick (Memory.set_header block h s.mem);
      early = record (s.early) { next_alloc_id = add64 s.early.next_alloc_id 1 };
    }

abbrev pub set_size : ℕ → ℕ → State → State
set_size block size s =
    on_mem (Memory.set_header block (record (s.mem.header block) { size = size })) s

-- `free_size -= size + size_of::<BlockHeader>(); free_count -= 1`, and the same with `+=`.
unfoldable pub drop_free : ℕ → AllocStats → AllocStats
drop_free size t = record t {
  free_size = sub64 t.free_size (add64 size header_size);
  free_count = sub64 t.free_count 1;
}

unfoldable pub add_free : ℕ → AllocStats → AllocStats
add_free size t = record t {
  free_size = add64 t.free_size (add64 size header_size);
  free_count = add64 t.free_count 1;
}

-- The branch of `alloc_aligned` that splits the block: the rest becomes a free block of its own.
unfoldable pub split_block : ℕ → ℕ → ℕ → State → Option State
split_block block size required s =
    let rest = add64 block required in
    let rest_size = sub64 size required in
    let s = mark_allocated block (set_size block (sub64 required header_size) s) in
    let fresh = Header.new s.mem.clock rest_size free in
    let s = on_mem (λ m. Memory.tick (Memory.set_header rest fresh m)) s in
    do
      s ← insert_into_free_list (node_of rest) s
      let s = on_stats Stats.record_split s
      some (on_stats (add_free rest_size) s)

-- What `alloc_aligned` does with the block that it has found.
unfoldable pub take_block : ℕ → ℕ → ℕ → State → Option State
take_block alloc_size block user s =
    let size = (s.mem.header block).size in
    let s = remove_from_free_list (node_of block) s in
    let s = on_stats (drop_free size) s in
    let required = add64 (sub64 user block) alloc_size in
    do
      s ←
          if leb (add64 required min_block_size) size
          then split_block block size required s
          else some (mark_allocated block s)
      some (on_stats (Stats.record_alloc (s.mem.header block).size) s)

-- `NonNull::new`
abbrev pub non_null : ℕ → Option ℕ
non_null p = if p == null then none else some p

unfoldable pub alloc_aligned : ℕ → ℕ → State → Option (Option ℕ × State)
alloc_aligned size align s =
    let failed : Option (Option ℕ × State) = some (none, on_stats Stats.record_alloc_failure s) in
    if s.early.frozen
    then failed
    else if size == 0 || not (is_power_of_two align)
    then failed
    else let alloc_size = max size free_block_size in
      (do
        found ← find_free_block alloc_size align s.mem (fuel_of s) s.early.free_list_head
        elim found [
          | none ↦ failed
          | some (block, user) ↦ take_block alloc_size block user s >>= λ s. some (non_null user, s)
        ])

-- `align_of::<usize>()` is 8.
unfoldable pub alloc : ℕ → State → Option (Option ℕ × State)
unfolding alloc_aligned
alloc size = alloc_aligned size 8

-- `record_merge(); free_count -= 1`
unfoldable pub count_merge : AllocStats → AllocStats
count_merge t = let t = Stats.record_merge t in record t { free_count = sub64 t.free_count 1 }

-- Both halves of `coalesce`: take `node` off the free list, and add the block at `other` to the
-- block at `block`.
unfoldable pub absorb : ℕ → ℕ → ℕ → State → State
absorb node block other s =
    let s = remove_from_free_list node s in
    let size = add64 (s.mem.header block).size (total_size (s.mem.header other)) in
    let h = Header.update_checksum (record (s.mem.header block) { size = size }) in
    let s = on_mem (Memory.set_header block h) s in on_stats count_merge s

-- The half that joins the block at `p` with the block behind it, if that is free.
unfoldable pub merge_next : ℕ → State → State
merge_next p s =
    let block = header_of p in
    let after = add64 block (total_size (s.mem.header block)) in
    if ltb after s.early.heap_end && is_free (s.mem.header after).status
    then absorb (node_of after) block after s
    else s

-- The half that joins it with the free block before it, if the two touch.
unfoldable pub merge_prev : ℕ → State → State
merge_prev p s =
    let block = header_of p in
    let before = (s.mem.link p).prev in
    let prev_block = header_of before in
    if not (before == null) && add64 prev_block (total_size (s.mem.header prev_block)) == block
    then absorb p prev_block block s
    else s

unfoldable pub coalesce : ℕ → State → State
unfolding merge_next merge_prev
coalesce p s = merge_prev p (merge_next p s)

-- What `dealloc` does with a header that it accepts.
unfoldable pub release_block : ℕ → State → Option State
release_block block s =
    let size = (s.mem.header block).size in
    let s = on_stats (Stats.record_dealloc size) s in
    let s = on_stats (add_free size) s in
    let h = record (s.mem.header block) { status = free } in
    let h = Header.update_checksum (Header.update_timestamp s.mem.clock h) in
    let s = on_mem (λ m. Memory.tick (Memory.set_header block h m)) s in
    insert_into_free_list (node_of block) s >>= λ s. some (coalesce (node_of block) s)

unfoldable pub dealloc : ℕ → State → Option (Result (Unit {0}) × State)
dealloc user s =
    if s.early.frozen
    then some (err AllocError.allocator_frozen, s)
    else if ltb user s.early.heap_start || ltb s.early.heap_end user
    then some (err AllocError.invalid_pointer, s)
    else let block = header_of user in
      if not (Header.validate (s.mem.header block))
      then some (err AllocError.corrupted_header, on_stats Stats.record_corruption s)
      else (if is_free (s.mem.header block).status
          then some (err AllocError.double_free, on_stats Stats.record_double_free s)
          else release_block block s >>= λ s. some (ok tt, s))

-- The loop of `integrity_check`.
unfoldable pub check_blocks : Memory → ℕ → ℕ → ℕ → Option (Result (Unit {0}))
check_blocks m end zero current = none
check_blocks m end (suc fuel) current =
    let rest = check_blocks m end fuel (add64 current (total_size (m.header current))) in
    if ltb current end
    then (if Header.validate (m.header current)
        then rest
        else some (err AllocError.corrupted_header))
    else some (if current == end then ok tt else err AllocError.internal_error)

unfoldable pub integrity_check : State → Option (Result (Unit {0}))
integrity_check s = check_blocks s.mem s.early.heap_end (fuel_of s) s.early.heap_start

unfoldable pub freeze : State → State
freeze s = record s { early = record (s.early) { frozen = true } }

unfoldable pub set_purpose : ℕ → AllocPurpose → State → Result (Unit {0}) × State
set_purpose user purpose s =
    let block = header_of user in
    let h = s.mem.header block in
    if not (Header.validate h)
    then (err AllocError.corrupted_header, s)
    else if is_free h.status
    then (err AllocError.invalid_pointer, s)
    else (ok tt, on_mem (Memory.set_header block (Header.set_purpose purpose h)) s)
