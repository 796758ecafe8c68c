-- ===== src/Alloc/Early/Take.antt =====
-- A free block that is taken off the free list: what stays as it was.
use nt_rustos.Common.{ℕ, ◌+◌, ◌^◌, ◌<◌, ◌≡◌, ◌∙◌, ap, List, ◌∷◌, ◌++◌, arith}
use nt_rustos.Alloc.Early.{State, remove_from_free_list, drop_free, on_stats}
use nt_rustos.Alloc.Early.Links.{IsFreeList, SameBlocks, remove-IsFreeList, remove-SameBlocks}
use nt_rustos.Alloc.Early.Layout.{
  Block, free_block, span, nodes, Tiles, Tiles-end, Tiles-split, nodes-append, nodes-Sorted,
  span-append,
}
use nt_rustos.Alloc.Early.Invariant.{Inv}

-- The state once the block at `at` is off the free list.
abbrev pub unlinked : State → ℕ → State
unlinked s at = remove_from_free_list (at + 48) s

-- The same, with the counters of the free blocks brought down by the block of `n` bytes.
abbrev pub uncounted : State → ℕ → ℕ → State
uncounted s n at = on_stats (drop_free n) (unlinked s at)

pub same : (s : State) (at : ℕ) → SameBlocks s (unlinked s at)
same s at = remove-SameBlocks s (at + 48)

-- The heap with one of its free blocks.
module _ (s : State) (pre post : List Block) (n at : ℕ) (inv : Inv s (pre ++ free_block n ∷ post))
    (place : s.early.heap_start + span pre ≡ at) where
  pub whole_end : at + n + 48 + span post ≡ s.early.heap_end
  whole_end = omega (
    arith,
    Tiles-end s.mem s.early.heap_start s.early.heap_end (pre ++ free_block n ∷ post) inv.tiles,
    span-append pre (free_block n ∷ post),
  )

  pub here_Tiles : Tiles s.mem at (free_block n ∷ post) s.early.heap_end
  here_Tiles =
      (Tiles-split s.mem s.early.heap_start at s.early.heap_end pre (free_block n ∷ post) place
        inv.tiles).1

  pub list_around :
      nodes s.early.heap_start (pre ++ free_block n ∷ post)
      ≡ nodes s.early.heap_start pre ++ (at + 48) ∷ nodes (at + n + 48) post
  list_around =
      nodes-append s.early.heap_start pre (free_block n ∷ post)
      ∙ ap (λ k. nodes s.early.heap_start pre ++ nodes k (free_block n ∷ post)) place

  pub unlinked-IsFreeList :
      IsFreeList (unlinked s at) (nodes s.early.heap_start pre ++ nodes (at + n + 48) post)
  unlinked-IsFreeList =
      remove-IsFreeList s (at + 48) (nodes s.early.heap_start pre) (nodes (at + n + 48) post)
        (rw (← list_around)
          (nodes-Sorted 0 s.early.heap_start (pre ++ free_block n ∷ post) (omega arith)))
        (rw (← list_around) inv.chain)

  pub whole_span : span (pre ++ free_block n ∷ post) < 2 ^ 64
  whole_span =
      omega (arith, Tiles-end s.mem s.early.heap_start s.early.heap_end _ inv.tiles, inv.bounded)
