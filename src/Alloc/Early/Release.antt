-- ===== src/Alloc/Early/Release.antt =====
-- `dealloc` of an allocated block.
use nt_rustos.Common.{
  ℕ, ◌≢◌, ◌+◌, ◌^◌, ◌<◌, ◌≡◌, refl, ap, ◌∙◌, List, [], ◌∷◌, ◌++◌, arith, ==_refl, true, false, ltb,
  le→ltb, some,
}
use nt_rustos.Alloc.Header
use nt_rustos.Alloc.Header.{
  validate, update_checksum, free, BlockHeader, is_free, total_size, allocated,
}
use nt_rustos.Alloc.Stats
use nt_rustos.Alloc.Memory
use nt_rustos.Alloc.Early.{
  State, ok, dealloc, release_block, insert_into_free_list, coalesce, merge_next, header_of,
  node_of, on_mem, on_stats, add_free, ◌>>=◌,
}
use nt_rustos.Alloc.Early.Links.{
  IsFreeList, SameBlocks, insert-IsFreeList, same_start, same_end, same_stats, same_frozen,
}
use nt_rustos.Alloc.Early.Layout.{
  Block, free_block, allocated_block, span, nodes, Tiles, Tiles-end, Tiles-split, Tiles-replace,
  nodes-append, nodes-Sorted, nodes-Below, length-nodes, span-append,
}
use nt_rustos.Alloc.Early.Counts.{Counts-release}
use nt_rustos.Alloc.Early.Invariant.{Inv, update_checksum-validate, magic_of_validate}
use nt_rustos.Alloc.Early.Coalesce.{released, merge_next_keeps, merge_prev_keeps, coalesce-Inv}

dealloc-accept :
    (s : State) (user : ℕ)
    → s.early.frozen ≡ false
    → ltb user s.early.heap_start ≡ false
    → ltb s.early.heap_end user ≡ false
    → validate (s.mem.header (header_of user)) ≡ true
    → is_free (s.mem.header (header_of user)).status ≡ false
    → dealloc user s ≡ (release_block (header_of user) s >>= λ s. some (ok tt, s))
unfolding dealloc
dealloc-accept s user live above below sound used = ground arith

-- A heap with one of its allocated blocks.
module _ (s : State) (pre post : List Block) (n at : ℕ)
    (inv : Inv s (pre ++ allocated_block n ∷ post))
    (place : s.early.heap_start + span pre ≡ at) where
  at_Tiles : Tiles s.mem at (allocated_block n ∷ post) s.early.heap_end
  at_Tiles =
      (Tiles-split s.mem s.early.heap_start at s.early.heap_end pre (allocated_block n ∷ post) place
        inv.tiles).1

  at_end : at + n + 48 + span post ≡ s.early.heap_end
  at_end = omega (arith, Tiles-end s.mem at s.early.heap_end (allocated_block n ∷ post) at_Tiles)

  -- The state before the block is put on the free list.
  abbrev marked : State
  marked =
      let h = record (s.mem.header at) { status = free } in
      let h = update_checksum (Header.update_timestamp s.mem.clock h) in
      on_mem (λ m. Memory.tick (Memory.set_header at h m))
        (on_stats (add_free (s.mem.header at).size)
          (on_stats (Stats.record_dealloc (s.mem.header at).size) s))

  abbrev after : List Block
  after = pre ++ free_block n ∷ post

  after_list :
      nodes s.early.heap_start after
      ≡ nodes s.early.heap_start pre ++ (at + 48) ∷ nodes (at + n + 48) post
  after_list =
      nodes-append s.early.heap_start pre (free_block n ∷ post)
      ∙ ap (λ x. nodes s.early.heap_start pre ++ nodes x (free_block n ∷ post)) place

  before_list :
      nodes s.early.heap_start (pre ++ allocated_block n ∷ post)
      ≡ nodes s.early.heap_start pre ++ nodes (at + n + 48) post
  before_list =
      nodes-append s.early.heap_start pre (allocated_block n ∷ post)
      ∙ ap (λ x. nodes s.early.heap_start pre ++ nodes x (allocated_block n ∷ post)) place

  marked-IsFreeList : IsFreeList marked (nodes s.early.heap_start pre ++ nodes (at + n + 48) post)
  unfolding Memory.set_header Memory.tick
  marked-IsFreeList = rw (← before_list) inv.chain

  bounds : s.early.heap_start + span after < 2 ^ 64
  bounds = omega (arith, at_end, inv.bounded, place, span-append pre (free_block n ∷ post))

  linked :
      (t : State) × (insert_into_free_list (at + 48) marked ≡ some t)
      × IsFreeList t (nodes s.early.heap_start pre ++ (at + 48) ∷ nodes (at + n + 48) post)
      × SameBlocks marked t
  linked =
      insert-IsFreeList marked (at + 48) (nodes s.early.heap_start pre) (nodes (at + n + 48) post)
        (rw (← after_list)
          (nodes-Sorted 47 s.early.heap_start after (omega (arith, inv.start_pos))))
        (rw (← after_list) (nodes-Below s.early.heap_start (2 ^ 64) after bounds)) marked-IsFreeList
        (omega (arith, length-nodes s.early.heap_start pre, at_end, place))

  linked-header : (x : ℕ) → x ≢ at → linked.0.mem.header x ≡ s.mem.header x
  unfolding Memory.set_header Memory.tick
  linked-header x h = ground (arith, linked.3.header x)

  linked-here : Tiles linked.0.mem at (free_block n ∷ []) (at + span (free_block n ∷ []))
  unfolding Memory.set_header Memory.tick Header.update_timestamp update_checksum
  linked-here =
      rw (linked.3.header at, ==_refl at)
        (
          at_Tiles.0,
          refl,
          update_checksum-validate _ (magic_of_validate _ at_Tiles.2),
          at_Tiles.3,
          omega arith,
        )

  linked-Inv : Inv linked.0 after
  linked-Inv =
      let start = same_start linked.3 in
      let end = same_end linked.3 in
      record {
        tiles =
            rw (start, end)
              (Tiles-replace s.mem linked.0.mem s.early.heap_start at s.early.heap_end pre
                (allocated_block n ∷ []) (free_block n ∷ []) post place
                (λ x h. linked-header x (λ e. omega arith))
                (λ x h. linked-header x (λ e. omega arith)) linked-here inv.tiles);
        chain = rw (start, after_list) linked.2;
        start_pos = rw start inv.start_pos;
        bounded = rw end inv.bounded;
        counts =
            rw (same_stats linked.3, at_Tiles.0)
              (Counts-release _ n pre post inv.counts (
                omega
                  (arith, at_end, place, inv.bounded, span-append pre (allocated_block n ∷ post))));
      }

  release_block-linked : release_block at s ≡ some (coalesce (at + 48) linked.0)
  unfolding release_block
  release_block-linked =
      let node : node_of at ≡ at + 48 = omega (arith, at_end, inv.bounded) in rw (node, linked.1)

  -- The state that `dealloc` leaves.
  pub freed : State
  freed = coalesce (at + 48) linked.0

  pub freed-kept :
      (freed.early.heap_start ≡ s.early.heap_start)
      × (freed.early.heap_end ≡ s.early.heap_end)
      × (freed.early.frozen ≡ s.early.frozen)
  unfolding freed coalesce
  freed-kept =
      let (a, b, c) = merge_prev_keeps (at + 48) (merge_next (at + 48) linked.0) in
      let (d, e, f) = merge_next_keeps (at + 48) linked.0 in
      (a ∙ d ∙ same_start linked.3, b ∙ e ∙ same_end linked.3, c ∙ f ∙ same_frozen linked.3)

  pub dealloc-freed :
      s.early.frozen ≡ false
      → (dealloc (at + 48) s ≡ some (ok tt, freed)) × Inv freed (released pre n post)
  unfolding freed
  dealloc-freed live =
      let above : ltb (at + 48) s.early.heap_start ≡ false = le→ltb _ _ (omega (arith, place)) in
      let below : ltb s.early.heap_end (at + 48) ≡ false = le→ltb _ _ (omega (arith, at_end)) in
      let block : header_of (at + 48) ≡ at = omega (arith, at_end, inv.bounded) in
      let used : is_free (s.mem.header (header_of (at + 48))).status ≡ false =
        rw (block, at_Tiles.1) refl in
      (
        dealloc-accept s (at + 48) live above below (rw block at_Tiles.2) used
            ∙ rw (block, release_block-linked) refl,
        coalesce-Inv linked.0 pre post n at linked-Inv (omega (arith, place, same_start linked.3)),
      )

  -- Giving back the address 48 bytes behind the header of an allocated block, in a sound heap that is not
  -- frozen, succeeds: the block becomes
  -- free and is joined with its free neighbours, and the invariant holds.
  pub dealloc-result :
      s.early.frozen ≡ false
      → (t : State) × (dealloc (at + 48) s ≡ some (ok tt, t)) × Inv t (released pre n post)
  dealloc-result live = let (e, inv') = dealloc-freed live in (freed, e, inv')
