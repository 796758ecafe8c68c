-- ===== src/Alloc/Early/Absorb.antt =====
-- `absorb`: a free block takes in the free block behind it.
use mathlib.Core.Path.{subst}
use nt_rustos.Common.{
  ℕ, ◌≢◌, ◌+◌, ◌≡◌, sym, ap, ◌∙◌, List, [], ◌∷◌, ◌++◌, append_assoc, arith, add64, ==_refl,
}
use nt_rustos.Alloc.Header.{update_checksum}
use nt_rustos.Alloc.Memory
use nt_rustos.Alloc.Early.{State, absorb}
use nt_rustos.Alloc.Early.Links.{IsFreeList, same_start, same_end, same_stats}
use nt_rustos.Alloc.Early.Layout.{
  Block, free_block, span, nodes, Tiles, Tiles-end, Tiles-replace, nodes-append, span-append,
}
use nt_rustos.Alloc.Early.Counts.{Counts-merge}
use nt_rustos.Alloc.Early.Invariant.{Inv, update_checksum-validate, magic_of_validate}
use nt_rustos.Alloc.Early.Take.{same, unlinked-IsFreeList, here_Tiles, whole_end}

module _ (s : State) (pre post : List Block) (n m at : ℕ)
    (inv : Inv s (pre ++ free_block n ∷ free_block m ∷ post))
    (place : s.early.heap_start + span pre ≡ at) where
  other : ℕ
  other = at + n + 48

  -- The same blocks, with the first of the two counted to those before.
  regrouped :
      pre ++ free_block n ∷ free_block m ∷ post ≡ (pre ++ free_block n ∷ []) ++ free_block m ∷ post
  regrouped = sym (append_assoc pre (free_block n ∷ []) (free_block m ∷ post))

  inv' : Inv s ((pre ++ free_block n ∷ []) ++ free_block m ∷ post)
  inv' = subst (Inv s) regrouped inv

  place' : s.early.heap_start + span (pre ++ free_block n ∷ []) ≡ other
  unfolding other
  place' = omega (arith, place, span-append pre (free_block n ∷ []))

  first_Tiles : Tiles s.mem at (free_block n ∷ free_block m ∷ post) s.early.heap_end
  first_Tiles = here_Tiles s pre (free_block m ∷ post) n at inv place

  end : other + m + 48 + span post ≡ s.early.heap_end
  unfolding other
  end = whole_end s (pre ++ free_block n ∷ []) post m other inv' place'

  abbrev pub absorbed : State
  absorbed = absorb (at + n + 48 + 48) at (at + n + 48) s

  absorbed_list :
      nodes s.early.heap_start (pre ++ free_block (n + m + 48) ∷ post)
      ≡ nodes s.early.heap_start (pre ++ free_block n ∷ []) ++ nodes (other + m + 48) post
  unfolding other
  absorbed_list =
      let before = nodes s.early.heap_start pre in
      let behind = nodes (other + m + 48) post in
      let shift : at + (n + m + 48) + 48 ≡ other + m + 48 = omega arith in
      nodes-append s.early.heap_start pre (free_block (n + m + 48) ∷ post)
      ∙ ap (λ x. before ++ nodes x (free_block (n + m + 48) ∷ post)) place
      ∙ ap (λ x. before ++ (at + 48) ∷ nodes x post) shift
      ∙ sym (append_assoc before ((at + 48) ∷ []) behind)
      ∙ ap (λ l. l ++ behind)
          (sym (
            nodes-append s.early.heap_start pre (free_block n ∷ [])
            ∙ ap (λ x. before ++ nodes x (free_block n ∷ [])) place))

  absorbed-IsFreeList :
      IsFreeList absorbed (nodes s.early.heap_start (pre ++ free_block (n + m + 48) ∷ post))
  unfolding absorb Memory.set_header other
  absorbed-IsFreeList =
      rw absorbed_list (unlinked-IsFreeList s (pre ++ free_block n ∷ []) post m other inv' place')

  absorbed-header : (x : ℕ) → x ≢ at → absorbed.mem.header x ≡ s.mem.header x
  unfolding absorb Memory.set_header
  absorbed-header x h = ground (arith, (same s (at + n + 48)).header x)

  absorbed-size : add64 n (add64 m 48) ≡ n + m + 48
  unfolding other
  absorbed-size = omega (arith, end, inv.bounded)

  absorbed-here :
      Tiles absorbed.mem at
        (free_block (n + m + 48) ∷ [])
        (at + span (free_block n ∷ free_block m ∷ []))
  unfolding absorb Memory.set_header update_checksum
  absorbed-here =
      let first = (same s (at + n + 48)).header at in
      let second = (same s (at + n + 48)).header (at + n + 48) in
      rw (==_refl at) (
        rw (first, second, first_Tiles.0, first_Tiles.4.0) absorbed-size,
        rw first first_Tiles.1,
        update_checksum-validate _ (rw first (magic_of_validate _ first_Tiles.2)),
        omega (arith, first_Tiles.3),
        omega arith,
      )

  -- The two blocks become one, and the invariant is kept.
  pub absorbed-Inv : Inv absorbed (pre ++ free_block (n + m + 48) ∷ post)
  unfolding absorb Memory.set_header
  absorbed-Inv =
      let t = same s (at + n + 48) in
      rw (same_start t, same_end t)
        record {
          tiles =
              Tiles-replace s.mem absorbed.mem s.early.heap_start at s.early.heap_end pre
                (free_block n ∷ free_block m ∷ []) (free_block (n + m + 48) ∷ []) post place
                (λ x h. absorbed-header x (λ e. omega arith))
                (λ x h. absorbed-header x (λ e. omega arith)) absorbed-here inv.tiles;
          chain = absorbed-IsFreeList;
          start_pos = inv.start_pos;
          bounded = inv.bounded;
          counts = rw (same_stats t) (
              Counts-merge _ n m pre post inv.counts (
                omega (
                  arith,
                  Tiles-end s.mem s.early.heap_start s.early.heap_end _ inv.tiles,
                  inv.bounded,
                )));
        }
