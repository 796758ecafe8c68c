-- ===== src/Alloc/Early/Tests.antt =====
-- Runs of the early allocator, and its theorems at concrete heaps.
use mathlib.Core.Path.{subst}
use nt_rustos.Common.{
  ℕ, ◌≡◌, ◌⊎◌, inr, refl, ap, List, [], ◌∷◌, arith, Option, some, none, ◌%◌, ◌≤◌, ◌<◌, ◌+◌, ◌-◌,
  ◌^◌, ◌==◌, true, Bool-cases, inl,
}
use nt_rustos.Alloc.Header
use nt_rustos.Alloc.Header.{BlockHeader, free, allocated, update_checksum}
use nt_rustos.Alloc.Stats
use nt_rustos.Alloc.Memory
use nt_rustos.Alloc.Memory.{Memory}
use nt_rustos.Alloc.Early.{
  State, Result, ok, fresh_state, alloc, alloc_aligned, dealloc, integrity_check,
  calculate_aligned_addr, insert_into_free_list, remove_from_free_list, find_free_block, take_block,
  split_block, insert_position, insert_first, insert_after, ◌>>=◌, drop_free, add_free,
}
use nt_rustos.Alloc.Early.Links.{IsFreeList, SameBlocks, remove-IsFreeList, insert-IsFreeList}
use nt_rustos.Alloc.Early.Layout.{Block, free_block}
use nt_rustos.Alloc.Early.Invariant.{Inv}
use nt_rustos.Alloc.Early.Align.{calculate_aligned_addr_lem}
use nt_rustos.Alloc.Early.Allocate.{Allocated, alloc_aligned-result, failed}
use nt_rustos.Alloc.Early.Find.{Rejects}
use nt_rustos.Alloc.Early.Release.{dealloc-result}
use nt_rustos.Alloc.Early.Coalesce.{released}
use nt_rustos.Alloc.Early.Apart.{Apart, alloc_aligned-Apart}
use nt_rustos.Alloc.Early.Scan.{Finding, integrity_check-Finding}
use nt_rustos.Alloc.Early.Sample.{start_state, three_blocks, three, three-Inv, second-AtBlock}
use nt_rustos.Alloc.Early.Sequence.{
  Command, request, give_back, run, run_command, AtBlock, run-Inv, Careful,
}

-- A request of 20 bytes is met behind the first header. The second block then begins at an address
-- that is no multiple of 8, and its user is given an address 52 bytes behind its header.
abbrev second_user : Option ℕ
second_user = alloc 20 start_state >>= λ r. alloc 16 r.1 >>= λ r. r.0

second_user_value : second_user ≡ some 4216
unfolding alloc alloc_aligned find_free_block take_block split_block insert_into_free_list
    insert_position insert_first insert_after remove_from_free_list drop_free add_free fresh_state
    calculate_aligned_addr Memory.set_header Memory.set_link Memory.set_next Memory.set_prev
    Memory.tick Header.new update_checksum Header.update_timestamp Stats.new Stats.record_alloc
    Stats.record_split
second_user_value = refl

alloc_aligned-result_example :
    Allocated three_blocks three 20 64 (alloc_aligned 20 64 three_blocks)
    ⊎ Rejects 20 64 4096 three
      × (alloc_aligned 20 64 three_blocks ≡ some (none, failed three_blocks))
alloc_aligned-result_example =
    alloc_aligned-result three_blocks three 20 64 three-Inv refl (omega arith) refl (omega arith)

dealloc-result_example :
    (t : State) × (dealloc 4208 three_blocks ≡ some (ok tt, t))
    × Inv t (released (free_block 16 ∷ []) 16 (free_block 64 ∷ []))
dealloc-result_example =
    dealloc-result three_blocks (free_block 16 ∷ []) (free_block 64 ∷ []) 16 4160 three-Inv refl
      refl

remove-IsFreeList_example : IsFreeList (remove_from_free_list 4144 three_blocks) (4272 ∷ [])
remove-IsFreeList_example =
    remove-IsFreeList three_blocks 4144 [] (4272 ∷ []) (omega arith, (omega arith, tt))
      (refl, refl, (refl, refl, refl))

insert-IsFreeList_example :
    (t : State) × (insert_into_free_list 4208 three_blocks ≡ some t)
    × IsFreeList t (4144 ∷ 4208 ∷ 4272 ∷ [])
    × SameBlocks three_blocks t
insert-IsFreeList_example =
    insert-IsFreeList three_blocks 4208 (4144 ∷ []) (4272 ∷ [])
      (omega arith, (omega arith, (omega arith, tt)))
      (omega arith, (omega arith, (omega arith, tt))) (refl, refl, (refl, refl, refl)) (omega arith)

calculate_aligned_addr_lem_example :
    (calculate_aligned_addr 4164 8 % 8 ≡ 0)
    × (4164 + 48 ≤ calculate_aligned_addr 4164 8)
    × (calculate_aligned_addr 4164 8 < 4164 + 48 + 8)
calculate_aligned_addr_lem_example = calculate_aligned_addr_lem 4164 8 refl (omega arith)

-- A client of the three blocks asks for 16 bytes, and gives the middle block back.
abbrev commands : List Command
commands = request 16 8 ∷ give_back 4208 ∷ []

state_of : Option State → State
state_of none = start_state
state_of (some s) = s

-- After the request, which is met from the third block, 4208 still belongs to the second.
middle-AtBlock : AtBlock (state_of (run_command (request 16 8) three_blocks)) 4208
unfolding run_command alloc_aligned find_free_block take_block split_block insert_into_free_list
    insert_position insert_first insert_after remove_from_free_list drop_free add_free state_of
    calculate_aligned_addr Memory.set_header Memory.set_link Memory.set_next
    Header.calculate_checksum Memory.set_prev Memory.tick Header.new update_checksum
    Header.update_timestamp Header.validate Stats.new Stats.record_alloc Stats.record_split
    nt_rustos.Alloc.Purpose.code
middle-AtBlock =
    (free_block 16 ∷ [], 4160, (refl, refl, refl, omega arith, refl), omega arith, refl)

commands-Careful : Careful three_blocks commands
unfolding state_of
commands-Careful =
    (omega arith, λ t e. (subst (λ t. AtBlock t 4208) (ap state_of e) middle-AtBlock, λ u f. tt))

run-Inv_example : (t : State) × (bs : List Block) × (run commands three_blocks ≡ some t) × Inv t bs
run-Inv_example = run-Inv commands three_blocks three three-Inv commands-Careful

second_allocated : (three_blocks.mem.header (4208 - 48)).status ≡ allocated
unfolding Header.new update_checksum Header.calculate_checksum
second_allocated = refl

served_from_third :
    alloc_aligned 16 8 three_blocks
    ≡ some (some 4272, state_of (run_command (request 16 8) three_blocks))
unfolding run_command alloc_aligned find_free_block take_block split_block insert_into_free_list
    insert_position insert_first insert_after remove_from_free_list drop_free add_free state_of
    calculate_aligned_addr Memory.set_header Memory.set_link Memory.set_next Memory.set_prev
    Memory.tick Header.new update_checksum Header.update_timestamp Stats.new Stats.record_alloc
    Stats.record_split Header.calculate_checksum Header.validate nt_rustos.Alloc.Purpose.code
served_from_third = refl

alloc_aligned-Apart_example :
    Apart three_blocks 4208 4272 16 (state_of (run_command (request 16 8) three_blocks))
alloc_aligned-Apart_example =
    alloc_aligned-Apart three_blocks three 4208 three-Inv second-AtBlock 16 8 4272
      (state_of (run_command (request 16 8) three_blocks)) second_allocated (omega arith)
      served_from_third

sizes_near :
    (x : ℕ)
    → x < three_blocks.early.heap_end
    → Header.validate (three_blocks.mem.header x) ≡ true
    → x + (three_blocks.mem.header x).size + 48 < 2 ^ 64
unfolding Header.new update_checksum Header.calculate_checksum
sizes_near x h v = elim (Bool-cases (x == 4096)) [
  | inl a ↦ rw a (omega (arith, h))
  | inr a ↦ elim (Bool-cases (x == 4160)) [
    | inl b ↦ rw (a, b) (omega (arith, h))
    | inr b ↦ rw (a, b) (omega (arith, h))
  ]
]

integrity_check-Finding_example :
    (r : Result (Unit {0})) × (integrity_check three_blocks ≡ some r)
    × Finding three_blocks.mem 4336 4096 r
integrity_check-Finding_example = integrity_check-Finding three_blocks sizes_near
