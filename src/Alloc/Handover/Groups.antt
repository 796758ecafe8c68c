-- ===== src/Alloc/Handover/Groups.antt =====
-- `group_by_purpose` of src/init/alloc/handover.rs: how many blocks each purpose has, and their size.
use nt_rustos.Common.{ℕ, ◌==◌, if◌then◌else◌, List, [], ◌∷◌, add64, ◌≡◌, refl, take}
use nt_rustos.Alloc.Purpose
use nt_rustos.Alloc.Purpose.{
  AllocPurpose, unknown, interrupt_table, process_control_block, page_table, kernel_stack,
  kernel_heap, driver_buffer, file_system_meta, network_buffer, temp_buffer, bootstrap_data,
  device_tree, symbol_table, module_code, cache_buffer, shared_memory, user_data, system_call,
  debugging, testing,
}
use nt_rustos.Alloc.Handover.{AllocatedBlock, HandoverInfo, no_block, tracked}

-- A purpose, the number of its blocks, and their size.
abbrev Group : Type 0
Group = AllocPurpose × ℕ × ℕ

abbrev empty_group : AllocPurpose → Group
empty_group p = (p, 0, 0)

abbrev empty_groups : List Group
empty_groups =
    empty_group unknown
    ∷ empty_group interrupt_table
    ∷ empty_group process_control_block
    ∷ empty_group page_table
    ∷ empty_group kernel_stack
    ∷ empty_group kernel_heap
    ∷ empty_group driver_buffer
    ∷ empty_group file_system_meta
    ∷ empty_group network_buffer
    ∷ empty_group temp_buffer
    ∷ empty_group bootstrap_data
    ∷ empty_group device_tree
    ∷ empty_group symbol_table
    ∷ empty_group module_code
    ∷ empty_group cache_buffer
    ∷ empty_group shared_memory
    ∷ empty_group user_data
    ∷ empty_group system_call
    ∷ empty_group debugging
    ∷ empty_group testing
    ∷ []

-- The inner loop: the first group of the block's purpose counts it.
abbrev count_block : AllocatedBlock → List Group → List Group
count_block b [] = []
count_block b ((p, n, total) ∷ groups) =
    let rest = count_block b groups in
    if Purpose.code p == Purpose.code b.purpose
    then (p, add64 n 1, add64 total b.size) ∷ groups
    else (p, n, total) ∷ rest

-- The outer loop.
abbrev count_blocks : List AllocatedBlock → List Group → List Group
count_blocks [] groups = groups
count_blocks (b ∷ bs) groups = count_blocks bs (count_block b groups)

unfoldable group_by_purpose : HandoverInfo → List Group
group_by_purpose info = count_blocks (tracked info) empty_groups

abbrev user_block : AllocatedBlock
user_block = record no_block { purpose = interrupt_table; size = 32 }

-- Two blocks of two purposes.
two_purposes :
    take 2 (count_blocks (user_block ∷ no_block ∷ user_block ∷ []) empty_groups)
    ≡ (unknown, 1, 0) ∷ (interrupt_table, 2, 64) ∷ []
unfolding Purpose.code
two_purposes = refl
