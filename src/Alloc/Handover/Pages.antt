-- ===== src/Alloc/Handover/Pages.antt =====
-- The memory map of src/init/alloc/handover.rs: a page of the heap after the other.
use nt_rustos.Common.{
  ℕ, zero, suc, ◌-◌, ◌/◌, min, List, [], ◌∷◌, set, replicate, Option, none, some, add64, sub64,
}
use nt_rustos.Alloc.Purpose.{AllocPurpose}
use nt_rustos.Alloc.Handover.{AllocatedBlock, end_addr}

pub data PageStatus : Type 0 where
  free occupied reserved : PageStatus

pub record MemoryMapEntry : Type 0 where
  pub status : PageStatus
  pub purpose : AllocPurpose
  pub alloc_id : ℕ

abbrev pub free_page : MemoryMapEntry
free_page = record { status = PageStatus.free; purpose = AllocPurpose.unknown; alloc_id = 0 }

abbrev pub occupied_page : AllocPurpose → ℕ → MemoryMapEntry
occupied_page purpose alloc_id = record {
  status = PageStatus.occupied;
  purpose = purpose;
  alloc_id = alloc_id;
}

-- `for page in from..from + count { map[page] = entry }`, below the length of the map.
unfoldable pub fill_pages : MemoryMapEntry → ℕ → ℕ → List MemoryMapEntry → List MemoryMapEntry
fill_pages entry zero from map = map
fill_pages entry (suc count) from map = fill_pages entry count (suc from) (set map from entry)

-- The pages from the one that a block begins in to the one that it ends in, as the map has room.
unfoldable pub map_block : ℕ → ℕ → AllocatedBlock → List MemoryMapEntry → List MemoryMapEntry
map_block heap_start max_pages b map =
    let page_size : ℕ = 4096 in
    let start_page = sub64 b.addr heap_start / page_size in
    let end_page = sub64 (add64 (sub64 (end_addr b) heap_start) page_size) 1 / page_size in
    fill_pages (occupied_page b.purpose b.alloc_id) (min end_page max_pages - start_page) start_page
      map

unfoldable pub map_blocks :
    ℕ → ℕ → List AllocatedBlock → ℕ → List MemoryMapEntry → Option (List MemoryMapEntry)
map_blocks heap_start max_pages blocks zero map = some map
map_blocks heap_start max_pages [] (suc block_count) map = none
map_blocks heap_start max_pages (b ∷ blocks) (suc block_count) map =
    map_blocks heap_start max_pages blocks block_count (map_block heap_start max_pages b map)

unfoldable pub create_memory_map : List AllocatedBlock → ℕ → ℕ → ℕ → Option (List MemoryMapEntry)
create_memory_map blocks block_count heap_start heap_size =
    let page_size : ℕ = 4096 in
    let num_pages = sub64 (add64 heap_size page_size) 1 / page_size in
    map_blocks heap_start (min num_pages 512) blocks block_count (replicate 512 free_page)
