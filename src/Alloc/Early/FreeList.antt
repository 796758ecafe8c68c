-- ===== src/Alloc/Early/FreeList.antt =====
-- The free list of src/init/alloc/allocator.rs: the search for a block, and the two functions that change
-- the list. The loops run on fuel, and `none` is a loop that has not ended within it.
use nt_rustos.Common.{◌>>=◌}
use nt_rustos.Common.{ℕ, zero, suc, ◌-◌, ◌^◌, bit_and, add64, sub64}
use nt_rustos.Common.{not, ◌&&◌, ◌||◌, Option, none, some, ltb, leb, ◌==◌, if◌then◌else◌}
use nt_rustos.Alloc.Memory
use nt_rustos.Alloc.Memory.{Memory, FreeBlock, null, free_block_size}
use nt_rustos.Alloc.Early.Allocator.{State, on_mem, set_head, header_of, node_of}

-- `(data_addr + align - 1) & !(align - 1)`
unfoldable pub calculate_aligned_addr : ℕ → ℕ → ℕ
calculate_aligned_addr block align =
    bit_and (sub64 (add64 (node_of block) align) 1) (2 ^ 64 - 1 - (align - 1))

-- The space that a request needs of a block, its header and its padding included.
abbrev pub required_space : ℕ → ℕ → ℕ → ℕ
required_space block size align = add64 (sub64 (calculate_aligned_addr block align) block) size

-- The loop of `find_free_block`: a block's header and the user's address in it.
unfoldable pub find_free_block : ℕ → ℕ → Memory → ℕ → ℕ → Option (Option (ℕ × ℕ))
find_free_block size align m zero current = if current == null then some none else none
find_free_block size align m (suc fuel) current =
    if current == null
    then some none
    else let block = header_of current in
      let rest = find_free_block size align m fuel (m.link current).next in
      if leb (required_space block size align) (m.header block).size
      then some (some (block, calculate_aligned_addr block align))
      else rest

unfoldable pub remove_from_free_list : ℕ → State → State
remove_from_free_list p s =
    let before = (s.mem.link p).prev in
    let after = (s.mem.link p).next in
    let s = if before == null then set_head after s else on_mem (Memory.set_next before after) s in
    let after = (s.mem.link p).next in
    if after == null then s else on_mem (Memory.set_prev after (s.mem.link p).prev) s

-- The loop of `insert_into_free_list`: the last node before the block.
unfoldable pub insert_position : ℕ → Memory → ℕ → ℕ → Option ℕ
insert_position zero m block current = none
insert_position (suc fuel) m block current =
    let after = (m.link current).next in
    let rest = insert_position fuel m block after in
    if not (after == null) && ltb (header_of after) block then rest else some current

unfoldable pub insert_first : ℕ → State → State
insert_first p s =
    let current = s.early.free_list_head in
    let s = on_mem (Memory.set_next p current) s in
    let s = on_mem (Memory.set_prev p null) s in
    let s = if current == null then s else on_mem (Memory.set_prev current p) s in set_head p s

unfoldable pub insert_after : ℕ → ℕ → State → State
insert_after p current s =
    let s = on_mem (Memory.set_next p (s.mem.link current).next) s in
    let s = on_mem (Memory.set_prev p current) s in
    let after = (s.mem.link current).next in
    let s = if after == null then s else on_mem (Memory.set_prev after p) s in
    on_mem (Memory.set_next current p) s

-- No address is above `heap_end`, so no list of nodes in the heap is longer.
abbrev pub fuel_of : State → ℕ
fuel_of s = suc s.early.heap_end

unfoldable pub insert_into_free_list : ℕ → State → Option State
unfolding insert_position
insert_into_free_list p s =
    let block = header_of p in
    let current = s.early.free_list_head in
    if current == null || ltb block (header_of current)
    then some (insert_first p s)
    else (do place ← insert_position (fuel_of s) s.mem block current; some (insert_after p place s))
