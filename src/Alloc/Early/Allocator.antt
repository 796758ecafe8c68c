-- ===== src/Alloc/Early/Allocator.antt =====
-- `EarlyAllocator` of src/init/alloc/allocator.rs with its errors and its construction. An operation
-- takes the allocator with the memory that it owns.
use nt_rustos.Common.{ℕ, ◌+◌, ◌-◌, ◌*◌, bit_and, add64, sub64}
use nt_rustos.Common.{Bool, false, ◌||◌, ltb, ◌==◌, if◌then◌else◌}
use nt_rustos.Alloc.Header
use nt_rustos.Alloc.Header.{
  BlockHeader, BlockStatus, free, allocated, is_free, header_size, total_size,
}
use nt_rustos.Alloc.Stats
use nt_rustos.Alloc.Stats.{AllocStats}
use nt_rustos.Alloc.Memory
use nt_rustos.Alloc.Memory.{Memory, FreeBlock, null, free_block_size}

pub data AllocError : Type 0 where
  not_initialized already_initialized out_of_memory invalid_parameter : AllocError
  invalid_alignment invalid_pointer double_free corrupted_header : AllocError
  allocator_frozen null_pointer internal_error : AllocError

pub data Result {ℓ} (A : Type ℓ) : Type ℓ where
  ok : A → Result A
  err : AllocError → Result A

pub record EarlyAllocator : Type 0 where
  pub heap_start : ℕ
  pub heap_end : ℕ
  pub free_list_head : ℕ
  pub stats : AllocStats
  pub frozen : Bool
  pub next_alloc_id : ℕ

pub record State : Type 0 where
  pub mem : Memory
  pub early : EarlyAllocator

abbrev pub on_mem : (Memory → Memory) → State → State
on_mem f s = record s { mem = f s.mem }

abbrev pub on_stats : (AllocStats → AllocStats) → State → State
on_stats f s = record s { early = record (s.early) { stats = f s.early.stats } }

abbrev pub set_head : ℕ → State → State
set_head p s = record s { early = record (s.early) { free_list_head = p } }

abbrev pub min_block_size : ℕ
min_block_size = header_size + free_block_size

abbrev pub min_heap_size : ℕ
min_heap_size = min_block_size * 2

-- `n.is_power_of_two()`
abbrev pub is_power_of_two : ℕ → Bool
is_power_of_two n = if n == 0 then false else bit_and n (n - 1) == 0

-- `get_header_from_free_block`
abbrev pub header_of : ℕ → ℕ
header_of p = sub64 p header_size

-- The `FreeBlock` of the block whose header stands at `block`.
abbrev pub node_of : ℕ → ℕ
node_of block = add64 block header_size

-- What `new` writes and returns: one free block over the whole heap. The rest of the memory is as
-- it was found.
unfoldable pub fresh_state : Memory → ℕ → ℕ → State
fresh_state m start size =
    let head = node_of start in
    let first = Header.new m.clock (sub64 size header_size) free in
    let m = Memory.tick (Memory.set_header start first m) in
    let m = Memory.set_link head (record { next = null; prev = null }) m in
    record {
      mem = m;
      early = record {
        heap_start = start;
        heap_end = add64 start size;
        free_list_head = head;
        stats = record (Stats.new size) {
          free_size = size;
          free_count = 1;
          max_free_block_size = size;
        };
        frozen = false;
        next_alloc_id = 1;
      };
    }

unfoldable pub new : Memory → ℕ → ℕ → Result State
new m start size =
    if start == 0 || ltb size min_heap_size
    then err AllocError.invalid_parameter
    else ok (fresh_state m start size)
