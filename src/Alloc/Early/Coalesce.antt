-- ===== src/Alloc/Early/Coalesce.antt =====
-- `coalesce`: a free block is joined with its free neighbours.
use nt_rustos.Common.{ℕ, ◌+◌, ◌^◌, ◌%◌, ◌≡◌, List, [], ◌∷◌, ◌++◌, arith}
use nt_rustos.Alloc.Early.{State, coalesce, merge_next, merge_prev, absorb, header_of, node_of}
use nt_rustos.Alloc.Early.Links.{remove-SameBlocks, same_start, same_end, same_frozen}
use nt_rustos.Alloc.Early.Layout.{Block, free_block, allocated_block, span}
use nt_rustos.Alloc.Early.Invariant.{Inv}
use nt_rustos.Alloc.Early.MergeNext.{merge_next-Inv}
use nt_rustos.Alloc.Early.MergePrev.{join_prev, merge_prev-Inv}

-- The layout once the block of `n` bytes between `pre` and `post` is free and joined with its free
-- neighbours.
abbrev pub released : List Block → ℕ → List Block → List Block
released pre n [] = join_prev pre n []
released pre n (free_block m ∷ post) = join_prev pre (n + m + 48) post
released pre n (allocated_block m ∷ post) = join_prev pre n (allocated_block m ∷ post)

-- What joining leaves as it is.
absorb_keeps :
    (node block other : ℕ) (s : State)
    → ((absorb node block other s).early.heap_start ≡ s.early.heap_start)
      × ((absorb node block other s).early.heap_end ≡ s.early.heap_end)
      × ((absorb node block other s).early.frozen ≡ s.early.frozen)
unfolding absorb
absorb_keeps node block other s =
    let t = remove-SameBlocks s node in (same_start t, same_end t, same_frozen t)

pub merge_next_keeps :
    (p : ℕ) (s : State)
    → ((merge_next p s).early.heap_start ≡ s.early.heap_start)
      × ((merge_next p s).early.heap_end ≡ s.early.heap_end)
      × ((merge_next p s).early.frozen ≡ s.early.frozen)
unfolding merge_next
merge_next_keeps p s =
    let block = header_of p in
    let after = node_of block in
    ground (
      arith,
      absorb_keeps ((((block + ((s.mem.header block).size + 48) % 2 ^ 64) % 2 ^ 64) + 48) % 2 ^ 64)
          block ((block + ((s.mem.header block).size + 48) % 2 ^ 64) % 2 ^ 64) s,
    )

pub merge_prev_keeps :
    (p : ℕ) (s : State)
    → ((merge_prev p s).early.heap_start ≡ s.early.heap_start)
      × ((merge_prev p s).early.heap_end ≡ s.early.heap_end)
      × ((merge_prev p s).early.frozen ≡ s.early.frozen)
unfolding merge_prev
merge_prev_keeps p s =
    let before = header_of (s.mem.link p).prev in
    ground (arith, absorb_keeps p before (header_of p) s)

-- `coalesce` keeps the invariant.
pub coalesce-Inv :
    (s : State) (pre post : List Block) (n at : ℕ)
    → Inv s (pre ++ free_block n ∷ post)
    → s.early.heap_start + span pre ≡ at
    → Inv (coalesce (at + 48) s) (released pre n post)
unfolding coalesce
coalesce-Inv s pre [] n at inv place =
    merge_prev-Inv (merge_next (at + 48) s) pre [] n at (merge_next-Inv s pre [] n at inv place)
      (omega (arith, place, (merge_next_keeps (at + 48) s).0))
coalesce-Inv s pre (free_block m ∷ post) n at inv place =
    merge_prev-Inv (merge_next (at + 48) s) pre post (n + m + 48) at
      (merge_next-Inv s pre (free_block m ∷ post) n at inv place)
      (omega (arith, place, (merge_next_keeps (at + 48) s).0))
coalesce-Inv s pre (allocated_block m ∷ post) n at inv place =
    merge_prev-Inv (merge_next (at + 48) s) pre (allocated_block m ∷ post) n at
      (merge_next-Inv s pre (allocated_block m ∷ post) n at inv place)
      (omega (arith, place, (merge_next_keeps (at + 48) s).0))
