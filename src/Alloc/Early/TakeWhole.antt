-- ===== src/Alloc/Early/TakeWhole.antt =====
-- `take_block` hands a free block out whole.
use nt_rustos.Common.{
  ℕ, ◌≢◌, ◌+◌, ◌-◌, ◌<◌, ◌≤◌, ◌≡◌, refl, some, List, [], ◌∷◌, ◌++◌, arith, false, add64, sub64,
  ==_refl, leb, lt→leb,
}
use nt_rustos.Alloc.Header
use nt_rustos.Alloc.Header.{BlockHeader, allocated, free, validate, update_checksum, block_magic}
use nt_rustos.Alloc.Stats
use nt_rustos.Alloc.Memory
use nt_rustos.Alloc.Memory.{Memory}
use nt_rustos.Alloc.Early.{State, take_block, mark_allocated, node_of, on_stats}
use nt_rustos.Alloc.Early.Links.{IsFreeList, same_start, same_end, same_stats}
use nt_rustos.Alloc.Early.Layout.{
  Block, free_block, allocated_block, span, nodes, Tiles, Tiles-replace, nodes-append,
}
use nt_rustos.Alloc.Early.Counts.{Counts-take}
use nt_rustos.Alloc.Early.Invariant.{Inv, update_checksum-validate, magic_of_validate}
use nt_rustos.Alloc.Early.Take.{
  uncounted, same, whole_end, here_Tiles, unlinked-IsFreeList, whole_span,
}

module _ (s : State) (pre post : List Block) (n at : ℕ) (inv : Inv s (pre ++ free_block n ∷ post))
    (place : s.early.heap_start + span pre ≡ at) where
  abbrev pub taken_whole : State
  taken_whole = on_stats (Stats.record_alloc n) (mark_allocated at (uncounted s n at))

  take_whole-header : (x : ℕ) → x ≢ at → taken_whole.mem.header x ≡ s.mem.header x
  unfolding Memory.set_header Memory.tick
  take_whole-header x h = ground (arith, (same s at).header x)

  take_whole-here :
      Tiles taken_whole.mem at (allocated_block n ∷ []) (at + span (free_block n ∷ []))
  unfolding Memory.set_header Memory.tick Header.update_timestamp update_checksum
  take_whole-here = rw (==_refl at) (
    rw ((same s at).header at) (here_Tiles s pre post n at inv place).0,
    refl,
    update_checksum-validate _
        (rw ((same s at).header at) (magic_of_validate _ (here_Tiles s pre post n at inv place).2)),
    (here_Tiles s pre post n at inv place).3,
    omega arith,
  )

  take_whole-IsFreeList :
      IsFreeList taken_whole (nodes s.early.heap_start (pre ++ allocated_block n ∷ post))
  unfolding Memory.set_header Memory.tick
  take_whole-IsFreeList =
      rw (nodes-append s.early.heap_start pre (allocated_block n ∷ post), place)
        (unlinked-IsFreeList s pre post n at inv place)

  -- The block is handed out whole: it alone changes its status.
  pub take_whole-Inv : Inv taken_whole (pre ++ allocated_block n ∷ post)
  take_whole-Inv =
      rw (same_start (same s at), same_end (same s at))
        record {
          tiles =
              Tiles-replace s.mem taken_whole.mem s.early.heap_start at s.early.heap_end pre
                (free_block n ∷ []) (allocated_block n ∷ []) post place
                (λ x h. take_whole-header x (λ e. omega arith))
                (λ x h. take_whole-header x (λ e. omega arith)) take_whole-here inv.tiles;
          chain = take_whole-IsFreeList;
          start_pos = inv.start_pos;
          bounded = inv.bounded;
          counts =
              rw (same_stats (same s at))
                (Counts-take _ n pre post inv.counts (whole_span s pre post n at inv place));
        }

  -- What `take_block` does if the rest of the block is too small for a block of its own.
  pub take_block-whole :
      (alloc_size user : ℕ)
      → at + 48 ≤ user
      → user + alloc_size ≤ at + n
      → n < user - at + alloc_size + 64
      → take_block alloc_size at user s ≡ some taken_whole
  unfolding take_block Memory.set_header Memory.tick Header.update_timestamp update_checksum
  take_block-whole alloc_size user h0 h1 h2 =
      let below = (whole_end s pre post n at inv place) in
      let top = inv.bounded in
      let start = inv.start_pos in
      let node : node_of at ≡ at + 48 = omega arith in
      let need : add64 (sub64 user at) alloc_size ≡ user - at + alloc_size = omega arith in
      let small : leb (add64 (user - at + alloc_size) 64) n ≡ false = lt→leb _ _ (omega arith) in
      rw (
        node,
        (here_Tiles s pre post n at inv place).0,
        need,
        small,
        ==_refl at,
        (same s at).header at,
        (here_Tiles s pre post n at inv place).0,
      )
