-- ===== src/Alloc/Early/MergeNext.antt =====
-- `merge_next`: a free block is joined with the block behind it, if that is free.
use nt_rustos.Common.{
  ℕ, ◌+◌, ◌^◌, ◌<◌, ◌≡◌, List, [], ◌∷◌, ◌++◌, arith, add64, true, false, ltb, lt→ltb, le→ltb,
}
use nt_rustos.Alloc.Header.{total_size}
use nt_rustos.Alloc.Early.{State, merge_next, header_of, node_of}
use nt_rustos.Alloc.Early.Layout.{Block, free_block, allocated_block, span}
use nt_rustos.Alloc.Early.Invariant.{Inv}
use nt_rustos.Alloc.Early.Take.{here_Tiles, whole_end}
use nt_rustos.Alloc.Early.Absorb.{absorbed-Inv}

-- A free block of `n` bytes before `post`, joined with the first block of `post` if that is free.
abbrev pub join_next : ℕ → List Block → List Block
join_next n [] = free_block n ∷ []
join_next n (free_block m ∷ post) = free_block (n + m + 48) ∷ post
join_next n (allocated_block m ∷ post) = free_block n ∷ allocated_block m ∷ post

module _ (s : State) (pre post : List Block) (n at : ℕ) (inv : Inv s (pre ++ free_block n ∷ post))
    (place : s.early.heap_start + span pre ≡ at) where
  pub small : at + n + 48 + span post < 2 ^ 64
  small = omega (arith, whole_end s pre post n at inv place, inv.bounded)

  pub block_here : header_of (at + 48) ≡ at
  block_here = omega (arith, small)

  block_next : add64 at (total_size (s.mem.header at)) ≡ at + n + 48
  block_next = rw (here_Tiles s pre post n at inv place).0 (omega (arith, small))

-- `merge_next` keeps the invariant, and joins the two blocks exactly if both are free.
pub merge_next-Inv :
    (s : State) (pre post : List Block) (n at : ℕ)
    → Inv s (pre ++ free_block n ∷ post)
    → s.early.heap_start + span pre ≡ at
    → Inv (merge_next (at + 48) s) (pre ++ join_next n post)
unfolding merge_next
merge_next-Inv s pre [] n at inv place =
    let end = whole_end s pre [] n at inv place in
    let last : ltb (at + n + 48) s.early.heap_end ≡ false = le→ltb _ _ (omega arith) in
    rw (block_here s pre [] n at inv place, block_next s pre [] n at inv place, last) inv
merge_next-Inv s pre (allocated_block m ∷ post) n at inv place =
    let rest = here_Tiles s pre (allocated_block m ∷ post) n at inv place in
    let end = whole_end s pre (allocated_block m ∷ post) n at inv place in
    let more : ltb (at + n + 48) s.early.heap_end ≡ true = lt→ltb _ _ (omega arith) in
    rw
      (
        block_here s pre (allocated_block m ∷ post) n at inv place,
        block_next s pre (allocated_block m ∷ post) n at inv place,
        more,
        rest.4.1,
      )
      inv
merge_next-Inv s pre (free_block m ∷ post) n at inv place =
    let rest = here_Tiles s pre (free_block m ∷ post) n at inv place in
    let end = whole_end s pre (free_block m ∷ post) n at inv place in
    let more : ltb (at + n + 48) s.early.heap_end ≡ true = lt→ltb _ _ (omega arith) in
    let node : node_of (at + n + 48) ≡ at + n + 48 + 48 = omega (arith, inv.bounded) in
    rw
      (
        block_here s pre (free_block m ∷ post) n at inv place,
        block_next s pre (free_block m ∷ post) n at inv place,
        more,
        rest.4.1,
        node,
      )
      (absorbed-Inv s pre post n m at inv place)
