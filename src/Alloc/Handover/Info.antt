-- ===== src/Alloc/Handover/Info.antt =====
-- `HandoverInfo` of src/init/alloc/handover.rs with the blocks that it tracks, its checksum and its
-- construction. The array of 512 blocks is a list.
use nt_rustos.Common.{
  ℕ, ◌/◌, ◌%◌, ◌^◌, Bool, true, false, ◌&&◌, ltb, leb, List, [], ◌∷◌, take, replicate, min, add64,
  add32, bit_or,
}
use nt_rustos.Alloc.Purpose.{AllocPurpose}
use nt_rustos.Alloc.Stats.{AllocStats}

abbrev pub max_tracked_blocks : ℕ
max_tracked_blocks = 512

abbrev pub handover_protocol_version : ℕ
handover_protocol_version = 1

abbrev pub handover_magic : ℕ
handover_magic = 0x48414E444F564552

-- `MemoryPermissions`, by its bits.
abbrev pub read : ℕ
read = 1

abbrev pub write : ℕ
write = 2

abbrev pub read_write : ℕ
read_write = bit_or read write

pub record AllocatedBlock : Type 0 where
  pub addr : ℕ
  pub size : ℕ
  pub purpose : AllocPurpose
  pub alloc_id : ℕ
  pub timestamp : ℕ
  pub permissions : ℕ
  pub alignment : ℕ

abbrev pub end_addr : AllocatedBlock → ℕ
end_addr b = add64 b.addr b.size

unfoldable pub contains : AllocatedBlock → ℕ → Bool
contains b addr = leb b.addr addr && ltb addr (end_addr b)

unfoldable pub overlaps_with : AllocatedBlock → AllocatedBlock → Bool
overlaps_with a b = ltb a.addr (end_addr b) && ltb b.addr (end_addr a)

pub record PerformanceMetrics : Type 0 where
  pub avg_alloc_time : ℕ
  pub avg_dealloc_time : ℕ
  pub cache_hit_rate : ℕ
  pub defrag_count : ℕ
  pub max_consecutive_failures : ℕ

pub record AllocatorState : Type 0 where
  pub frozen : Bool
  pub integrity_ok : Bool
  pub health_status : ℕ
  pub error_count : ℕ
  pub performance_metrics : PerformanceMetrics

pub record HandoverInfo : Type 0 where
  pub version : ℕ
  pub magic : ℕ
  pub heap_start : ℕ
  pub heap_end : ℕ
  pub allocated_blocks : List AllocatedBlock
  pub allocated_count : ℕ
  pub statistics : AllocStats
  pub allocator_state : AllocatorState
  pub handover_timestamp : ℕ
  pub checksum : ℕ

-- The blocks that the loops `for i in 0..self.allocated_count` run over.
abbrev pub tracked : HandoverInfo → List AllocatedBlock
tracked info = take info.allocated_count info.allocated_blocks

-- The loop of `calculate_checksum`.
abbrev pub add_blocks : ℕ → List AllocatedBlock → ℕ
add_blocks c [] = c
add_blocks c (b ∷ bs) =
    add_blocks (add32 (add32 (add32 c (b.addr % 2 ^ 32)) (b.size % 2 ^ 32)) (b.alloc_id % 2 ^ 32))
      bs

unfoldable pub calculate_checksum : HandoverInfo → ℕ
calculate_checksum info =
    let c = add32 0 info.version in
    let c = add32 c (info.magic % 2 ^ 32) in
    let c = add32 c (info.magic / 2 ^ 32 % 2 ^ 32) in
    let c = add32 c (info.heap_start % 2 ^ 32) in
    let c = add32 c (info.heap_end % 2 ^ 32) in
    let c = add32 c (info.allocated_count % 2 ^ 32) in
    add_blocks c (take (min info.allocated_count 16) info.allocated_blocks)

unfoldable pub update_checksum : HandoverInfo → HandoverInfo
update_checksum info = record info { checksum = calculate_checksum info }

-- An entry of the array that holds no block.
abbrev pub no_block : AllocatedBlock
no_block = record {
  addr = 0;
  size = 0;
  purpose = AllocPurpose.unknown;
  alloc_id = 0;
  timestamp = 0;
  permissions = read_write;
  alignment = 8;
}

abbrev pub fresh_allocator_state : AllocatorState
fresh_allocator_state = record {
  frozen = false;
  integrity_ok = true;
  health_status = 0;
  error_count = 0;
  performance_metrics = record {
    avg_alloc_time = 0;
    avg_dealloc_time = 0;
    cache_hit_rate = 100;
    defrag_count = 0;
    max_consecutive_failures = 0;
  };
}

-- The time stamp is passed in.
unfoldable pub new : ℕ → ℕ → ℕ → AllocStats → HandoverInfo
new now heap_start heap_end stats = update_checksum (record {
  version = handover_protocol_version;
  magic = handover_magic;
  heap_start = heap_start;
  heap_end = heap_end;
  allocated_blocks = replicate max_tracked_blocks no_block;
  allocated_count = 0;
  statistics = stats;
  allocator_state = fresh_allocator_state;
  handover_timestamp = now;
  checksum = 0;
})
