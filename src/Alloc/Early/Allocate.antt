-- ===== src/Alloc/Early/Allocate.antt =====
-- What `alloc_aligned` does on a sound heap, on every branch.
use mathlib.Core.Path.{subst}
use nt_rustos.Common.{
  ℕ, ◌⊎◌, inl, inr, ◌+◌, ◌^◌, ◌%◌, ◌<◌, ◌≤◌, ◌≡◌, max, Option, some, none, List, [], ◌∷◌, ◌++◌,
  arith, true, false, ◌==◌, ≢→==,
}
use nt_rustos.Alloc.Stats
use nt_rustos.Alloc.Memory.{null}
use nt_rustos.Alloc.Early.{
  State, take_block, alloc_aligned, find_free_block, calculate_aligned_addr, is_power_of_two,
  non_null, on_stats, fuel_of, ◌>>=◌,
}
use nt_rustos.Alloc.Early.Layout.{Block, free_block, allocated_block, span, Tiles-end, length-nodes}
use nt_rustos.Alloc.Early.Invariant.{Inv}
use nt_rustos.Alloc.Early.Find.{Rejects, Hit, find-first}
use nt_rustos.Alloc.Early.Align.{calculate_aligned_addr_lem}
use nt_rustos.Alloc.Early.Take.{whole_end}
use nt_rustos.Alloc.Early.TakeBlock.{take_block-Taken}

-- A request of `size` bytes at the alignment `align` that is met from a heap laid out as `bs`.
pub record Allocated (s : State) (bs : List Block) (size align : ℕ) (r : Option (Option ℕ × State))
    : Type 0 where
  pub state : State
  pub user : ℕ
  pub returns : r ≡ some (some user, state)
  pub pre : List Block
  pub post : List Block
  pub room : ℕ
  pub blocks : bs ≡ pre ++ free_block room ∷ post
  pub first : Rejects (max size 16) align s.early.heap_start pre
  pub block_size : ℕ
  pub left : List Block
  pub inv_after : Inv state (pre ++ allocated_block block_size ∷ (left ++ post))
  pub shape :
      (left ≡ []) × (block_size ≡ room)
      ⊎ (q : ℕ) × (left ≡ free_block q ∷ []) × (block_size + 48 + q ≡ room)
  pub aligned : user % align ≡ 0
  pub start_same : state.early.heap_start ≡ s.early.heap_start
  pub end_same : state.early.heap_end ≡ s.early.heap_end
  pub frozen_same : state.early.frozen ≡ s.early.frozen
  pub low : s.early.heap_start + span pre + 48 ≤ user
  pub near : user < s.early.heap_start + span pre + 48 + align
  pub exact : (left ≡ []) ⊎ (s.early.heap_start + span pre + 48 + block_size ≡ user + max size 16)
  pub high : user + size ≤ s.early.heap_start + span pre + 48 + block_size

abbrev pub failed : State → State
failed = on_stats Stats.record_alloc_failure

module _ (s : State) (bs : List Block) (size align : ℕ) (inv : Inv s bs) where
  -- The block that the search found is taken.
  take_Hit :
      is_power_of_two align ≡ true
      → s.early.heap_end + align + size + 64 ≤ 2 ^ 64
      → (r : Option (Option (ℕ × ℕ))) (h : Hit (max size 16) align s.early.heap_start bs r)
      → Allocated s bs size align (
          take_block (max size 16) h.at (calculate_aligned_addr h.at align) s >>= λ t.
          some (non_null (calculate_aligned_addr h.at align), t))
  take_Hit p small r h =
      let user : ℕ = calculate_aligned_addr h.at align in
      let sound : Inv s (h.pre ++ free_block h.room ∷ h.post) = subst (Inv s) h.blocks inv in
      let end = whole_end s h.pre h.post h.room h.at sound h.place in
      let a = calculate_aligned_addr_lem h.at align p (omega arith) in
      let fits = h.fits in
      let t =
        take_block-Taken s h.pre h.post h.room h.at sound h.place (max size 16) user a.1
          (omega arith) (omega arith) in
      let live : (user == null) ≡ false = ≢→== _ _ (λ e. omega arith) in
      let enough = t.enough in
      let place = h.place in
      record {
        state = t.state;
        user = user;
        returns = rw (t.returns, live);
        pre = h.pre;
        post = h.post;
        room = h.room;
        blocks = h.blocks;
        first = h.first;
        block_size = t.size;
        left = t.left;
        inv_after = t.inv_after;
        shape = t.shape;
        start_same = t.start_same;
        end_same = t.end_same;
        frozen_same = t.frozen_same;
        aligned = a.0;
        low = omega arith;
        near = omega arith;
        exact = elim t.exact [ inl e ↦ inl e | inr e ↦ inr (omega (arith, e, h.place, a.1)) ];
        high = omega arith;
      }

  searched : Option (Option (ℕ × ℕ)) → Option (Option ℕ × State)
  searched found = found >>= λ found. elim found [
    | none ↦ some (none, failed s)
    | some (block, user) ↦ take_block (max size 16) block user s >>= λ t. some (non_null user, t)
  ]

  alloc_aligned-search :
      s.early.frozen ≡ false
      → 0 < size
      → is_power_of_two align ≡ true
      → alloc_aligned size align s
        ≡ searched (find_free_block (max size 16) align s.mem (fuel_of s) s.early.free_list_head)
  unfolding alloc_aligned searched
  alloc_aligned-search live pos p = ground arith

  -- On a sound heap that is not frozen, a request for at least one byte at a power of two ends, if the heap's
  -- end, the alignment and the size together stay 64 bytes below the end of the address space. It
  -- is met from the first block of the list that has room for it, or no block has room, and only
  -- the count of failures changes.
  pub alloc_aligned-result :
      s.early.frozen ≡ false
      → 0 < size
      → is_power_of_two align ≡ true
      → s.early.heap_end + align + size + 64 ≤ 2 ^ 64
      → Allocated s bs size align (alloc_aligned size align s)
        ⊎ Rejects (max size 16) align s.early.heap_start bs
          × (alloc_aligned size align s ≡ some (none, failed s))
  unfolding searched
  alloc_aligned-result live pos p small =
      let end = Tiles-end s.mem s.early.heap_start s.early.heap_end bs inv.tiles in
      let few = length-nodes s.early.heap_start bs in
      rw (alloc_aligned-search live pos p)
        (elim (find-first (max size 16) align s (fuel_of s) 0 s.early.heap_start s.early.heap_end bs
          inv.tiles inv.bounded inv.chain (omega arith)) [
            | inl h ↦ inl (rw h.result (take_Hit p small _ h))
            | inr r ↦ inr (r.0, rw r.1)
          ])

  -- A frozen allocator, a request for no byte and an alignment that is no power of two are refused,
  -- and only the count of failures changes.
  pub alloc_aligned-refuse :
      (s.early.frozen ≡ true) ⊎ (size ≡ 0) ⊎ (is_power_of_two align ≡ false)
      → alloc_aligned size align s ≡ some (none, failed s)
  unfolding alloc_aligned
  alloc_aligned-refuse h = ground arith

  -- The refusal keeps the invariant.
  pub failed-Inv : Inv (failed s) bs
  unfolding Stats.record_alloc_failure
  failed-Inv = record {
    tiles = inv.tiles;
    chain = inv.chain;
    start_pos = inv.start_pos;
    bounded = inv.bounded;
    counts = record {
      free_size = inv.counts.free_size;
      free_count = inv.counts.free_count;
      used_size = inv.counts.used_size;
      alloc_count = inv.counts.alloc_count;
    };
  }
