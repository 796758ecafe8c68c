-- ===== src/Alloc/Early/TakeBlock.antt =====
-- `take_block`: what becomes of the free block that a request is met from.
use native.Mathlib.Decide.{dec_lt}
use nt_rustos.Common.{
  ℕ, ◌⊎◌, inl, inr, ◌+◌, ◌-◌, ◌≤◌, ◌≡◌, refl, Option, some, List, [], ◌∷◌, ◌++◌, arith,
}
use nt_rustos.Alloc.Early.{State, take_block}
use nt_rustos.Alloc.Early.Links.{same_start, same_end, same_frozen}
use nt_rustos.Alloc.Early.Layout.{Block, free_block, allocated_block, span}
use nt_rustos.Alloc.Early.Invariant.{Inv}
use nt_rustos.Alloc.Early.Take.{same}
use nt_rustos.Alloc.Early.TakeWhole.{taken_whole, take_block-whole, take_whole-Inv}
use nt_rustos.Alloc.Early.TakeSplit.{
  taken_split, take_block-split, take_split-Inv, split_start, split_end, split_frozen,
}

module _ (s : State) (pre post : List Block) (n at : ℕ) (inv : Inv s (pre ++ free_block n ∷ post))
    (place : s.early.heap_start + span pre ≡ at) where
  -- What becomes of a free block that is handed out to a request that needs `need` bytes of it, the
  -- header counted.
  pub record Taken (need : ℕ) (r : Option State) : Type 0 where
    pub state : State
    pub returns : r ≡ some state
    pub size : ℕ
    pub left : List Block
    pub inv_after : Inv state (pre ++ allocated_block size ∷ (left ++ post))
    pub enough : need ≤ size + 48
    pub shape :
        (left ≡ []) × (size ≡ n) ⊎ (q : ℕ) × (left ≡ free_block q ∷ []) × (size + 48 + q ≡ n)
    pub exact : (left ≡ []) ⊎ (size + 48 ≡ need)
    pub start_same : state.early.heap_start ≡ s.early.heap_start
    pub end_same : state.early.heap_end ≡ s.early.heap_end
    pub frozen_same : state.early.frozen ≡ s.early.frozen

  -- A block that has room is handed out whole, or its first part is; the invariant is kept.
  pub take_block-Taken :
      (alloc_size user : ℕ)
      → at + 48 ≤ user
      → user + alloc_size ≤ at + n
      → 16 ≤ alloc_size
      → Taken (user - at + alloc_size) (take_block alloc_size at user s)
  take_block-Taken alloc_size user h0 h1 h2 = elim (dec_lt n (user - at + alloc_size + 64)) [
    | yes small ↦ record {
      state = taken_whole s pre post n at inv place;
      returns = take_block-whole s pre post n at inv place alloc_size user h0 h1 small;
      size = n;
      left = [];
      inv_after = take_whole-Inv s pre post n at inv place;
      enough = omega arith;
      shape = inl (refl, refl);
      exact = inl refl;
      start_same = same_start (same s at);
      end_same = same_end (same s at);
      frozen_same = same_frozen (same s at);
    }
    | no large ↦
        let k : ℕ = user - at + alloc_size - 48 in
        let q : ℕ = n - (user - at + alloc_size) in
        let sizes : k + 48 + q ≡ n = omega arith in
        let room : 16 ≤ k = omega arith in
        let rest_room : 16 ≤ q = omega arith in
        record {
          state = taken_split s pre post n at inv place k q sizes room rest_room;
          returns =
              take_block-split s pre post n at inv place k q sizes room rest_room alloc_size user h0
                (omega arith) (omega arith);
          size = k;
          left = free_block q ∷ [];
          inv_after = take_split-Inv s pre post n at inv place k q sizes room rest_room;
          enough = omega arith;
          shape = inr (q, refl, sizes);
          exact = inr (omega arith);
          start_same = split_start s pre post n at inv place k q sizes room rest_room;
          end_same = split_end s pre post n at inv place k q sizes room rest_room;
          frozen_same = split_frozen s pre post n at inv place k q sizes room rest_room;
        }
  ]
