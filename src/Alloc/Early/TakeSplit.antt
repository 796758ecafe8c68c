-- ===== src/Alloc/Early/TakeSplit.antt =====
-- `take_block` splits a free block and hands out its first part.
use nt_rustos.Common.{
  ℕ, ◌≢◌, ◌+◌, ◌^◌, ◌<◌, ◌≤◌, ◌≡◌, refl, ◌∙◌, ap, some, List, [], ◌∷◌, ◌++◌, arith, true, false,
  add64, sub64, ◌==◌, ==_refl, ≢→==, leb, le→leb,
}
use nt_rustos.Alloc.Header
use nt_rustos.Alloc.Header.{BlockHeader, allocated, free, validate, update_checksum, block_magic}
use nt_rustos.Alloc.Stats
use nt_rustos.Alloc.Memory
use nt_rustos.Alloc.Memory.{Memory}
use nt_rustos.Alloc.Early.{
  State, take_block, split_block, insert_into_free_list, mark_allocated, set_size, node_of,
  add_free, on_stats, on_mem,
}
use nt_rustos.Alloc.Early.Links.{
  IsFreeList, SameBlocks, same_start, same_end, same_stats, same_frozen, insert-IsFreeList,
}
use nt_rustos.Alloc.Early.Layout.{
  Block, free_block, allocated_block, span, nodes, Tiles, Tiles-replace, nodes-append, nodes-Sorted,
  nodes-Below, length-nodes, span-append,
}
use nt_rustos.Alloc.Early.Counts.{Counts-split}
use nt_rustos.Alloc.Early.Invariant.{Inv, update_checksum-validate, magic_of_validate}
use nt_rustos.Alloc.Early.Take.{
  uncounted, same, whole_end, here_Tiles, unlinked-IsFreeList, whole_span,
}

module _ (s : State) (pre post : List Block) (n at : ℕ) (inv : Inv s (pre ++ free_block n ∷ post))
    (place : s.early.heap_start + span pre ≡ at) where
  -- The block is split into `k` bytes that are handed out and a free block of `q` bytes.
  module _ (k q : ℕ) (sizes : k + 48 + q ≡ n) (room : 16 ≤ k) (rest_room : 16 ≤ q) where
    abbrev rest : ℕ
    rest = at + k + 48

    abbrev marked : State
    marked = mark_allocated at (set_size at k (uncounted s n at))

    abbrev with_rest : State
    with_rest =
        on_mem (λ m. Memory.tick (Memory.set_header rest (Header.new marked.mem.clock q free) m))
          marked

    abbrev after : List Block
    after = pre ++ allocated_block k ∷ free_block q ∷ post

    after_list :
        nodes s.early.heap_start after
        ≡ nodes s.early.heap_start pre ++ (rest + 48) ∷ nodes (at + n + 48) post
    after_list =
        nodes-append s.early.heap_start pre (allocated_block k ∷ free_block q ∷ post)
        ∙ ap
            (λ x. nodes s.early.heap_start pre ++ nodes x (allocated_block k ∷ free_block q ∷ post))
            place
        ∙ ap (λ x. nodes s.early.heap_start pre ++ (rest + 48) ∷ nodes x post) shift
      where
        shift : rest + q + 48 ≡ at + n + 48
        shift = omega arith

    with_rest-IsFreeList :
        IsFreeList with_rest (nodes s.early.heap_start pre ++ nodes (at + n + 48) post)
    unfolding Memory.set_header Memory.tick
    with_rest-IsFreeList = (unlinked-IsFreeList s pre post n at inv place)

    bounds : s.early.heap_start + span after < 2 ^ 64
    bounds = omega (
      arith,
      (whole_end s pre post n at inv place),
      inv.bounded,
      place,
      span-append pre (allocated_block k ∷ free_block q ∷ post),
    )

    linked :
        (t : State) × (insert_into_free_list (rest + 48) with_rest ≡ some t)
        × IsFreeList t (nodes s.early.heap_start pre ++ (rest + 48) ∷ nodes (at + n + 48) post)
        × SameBlocks with_rest t
    linked =
        insert-IsFreeList with_rest (rest + 48) (nodes s.early.heap_start pre)
          (nodes (at + n + 48) post)
          (rw (← after_list)
            (nodes-Sorted 47 s.early.heap_start after (omega (arith, inv.start_pos))))
          (rw (← after_list) (nodes-Below s.early.heap_start (2 ^ 64) after bounds))
          with_rest-IsFreeList
          (omega (
            arith,
            length-nodes s.early.heap_start pre,
            (whole_end s pre post n at inv place),
            place,
            same_end (same s at),
          ))

    pub taken_split : State
    taken_split =
        on_stats (Stats.record_alloc k)
          (on_stats (add_free q) (on_stats Stats.record_split linked.0))

    split-header : (x : ℕ) → x ≢ at → x ≢ rest → taken_split.mem.header x ≡ s.mem.header x
    unfolding Memory.set_header Memory.tick taken_split
    split-header x h g = ground (arith, (same s at).header x, linked.3.header x)

    split-here :
        Tiles taken_split.mem at
          (allocated_block k ∷ free_block q ∷ [])
          (at + span (free_block n ∷ []))
    unfolding taken_split Memory.set_header Memory.tick Header.update_timestamp update_checksum
        Header.new
    split-here =
        let low : (at == rest) ≡ false = ≢→== _ _ (λ e. omega arith) in
        rw (linked.3.header at, linked.3.header rest, low, ==_refl at, ==_refl rest)
          (
            refl,
            refl,
            update_checksum-validate _ (
                rw ((same s at).header at)
                  (magic_of_validate _ (here_Tiles s pre post n at inv place).2)),
            room,
            (refl, refl, update_checksum-validate _ refl, rest_room, omega arith),
          )

    pub take_split-Inv : Inv taken_split after
    unfolding taken_split
    take_split-Inv =
        let start : linked.0.early.heap_start ≡ s.early.heap_start =
          same_start linked.3 ∙ same_start (same s at) in
        let end : linked.0.early.heap_end ≡ s.early.heap_end =
          same_end linked.3 ∙ same_end (same s at) in
        rw (start, end)
          record {
            tiles =
                Tiles-replace s.mem taken_split.mem s.early.heap_start at s.early.heap_end pre
                  (free_block n ∷ []) (allocated_block k ∷ free_block q ∷ []) post place
                  (λ x h. split-header x (λ e. omega arith) (λ e. omega arith))
                  (λ x h. split-header x (λ e. omega arith) (λ e. omega arith)) split-here
                  inv.tiles;
            chain = rw after_list linked.2;
            start_pos = inv.start_pos;
            bounded = inv.bounded;
            counts =
                rw (same_stats linked.3, same_stats (same s at))
                  (Counts-split _ n k q pre post inv.counts (whole_span s pre post n at inv place)
                    sizes);
          }

    pub split_start : taken_split.early.heap_start ≡ s.early.heap_start
    unfolding taken_split
    split_start = same_start linked.3 ∙ same_start (same s at)

    pub split_end : taken_split.early.heap_end ≡ s.early.heap_end
    unfolding taken_split
    split_end = same_end linked.3 ∙ same_end (same s at)

    pub split_frozen : taken_split.early.frozen ≡ s.early.frozen
    unfolding taken_split
    split_frozen = same_frozen linked.3 ∙ same_frozen (same s at)

    pub take_block-split :
        (alloc_size user : ℕ)
        → at + 48 ≤ user
        → user + alloc_size ≡ at + k + 48
        → 64 ≤ q
        → take_block alloc_size at user s ≡ some taken_split
    unfolding take_block split_block taken_split
    take_block-split alloc_size user h0 h1 h2 =
        let below = (whole_end s pre post n at inv place) in
        let top = inv.bounded in
        let start = inv.start_pos in
        let node : node_of at ≡ at + 48 = omega arith in
        let need : add64 (sub64 user at) alloc_size ≡ k + 48 = omega arith in
        let large : leb (add64 (k + 48) 64) n ≡ true = le→leb _ _ (omega arith) in
        let left : sub64 n (k + 48) ≡ q = omega arith in
        let inner : sub64 (k + 48) 48 ≡ k = omega arith in
        let there : add64 at (k + 48) ≡ rest = omega arith in
        let link : node_of rest ≡ rest + 48 = omega arith in
        rw (
          node,
          (here_Tiles s pre post n at inv place).0,
          need,
          large,
          left,
          inner,
          there,
          link,
          linked.1,
          split-here.0,
        )
