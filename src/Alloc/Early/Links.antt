-- ===== src/Alloc/Early/Links.antt =====
-- The free list's links: what `remove_from_free_list` and `insert_into_free_list` write.
use nt_rustos.Common.{ℕ, zero, suc, ◌<◌, ◌≤◌, ◌≡◌, ◌≢◌, refl, ap, List, [], ◌∷◌, ◌++◌, arith}
use nt_rustos.Common.{
  ◌==◌, if◌then◌else◌, some, length, ltb, lt→ltb, le→ltb, ≢→==, ◌^◌, false, true,
}
use nt_rustos.Alloc.Memory
use nt_rustos.Alloc.Memory.{Memory, null}
use nt_rustos.Alloc.Early.{
  State, remove_from_free_list, insert_first, insert_after, insert_into_free_list, insert_position,
  header_of, fuel_of,
}
use nt_rustos.Alloc.Early.Chain.{
  Chain, Sorted, last, Chain-remove, Chain-insert, prev-Chain, Sorted-split, Below, Below-middle,
  le-last, Sorted-weaken, next-place,
}

-- The list's head is what follows null.
abbrev pub next_of : State → ℕ → ℕ
next_of s p = if p == 0 then s.early.free_list_head else (s.mem.link p).next

abbrev pub prev_of : State → ℕ → ℕ
prev_of s p = (s.mem.link p).prev

-- The free list holds the nodes `ns`.
abbrev pub IsFreeList : State → List ℕ → Type 0
IsFreeList s ns = Chain (next_of s) (prev_of s) 0 ns

-- `t` differs from `s` at most in the links and the head of the free list.
pub record SameBlocks (s t : State) : Type 0 where
  pub header : (x : ℕ) → t.mem.header x ≡ s.mem.header x
  pub clock : t.mem.clock ≡ s.mem.clock
  pub early : t.early ≡ record (s.early) { free_list_head = t.early.free_list_head }

module _ {s t : State} (same : SameBlocks s t) where
  pub same_start : t.early.heap_start ≡ s.early.heap_start
  same_start = ap (λ e. e.heap_start) same.early

  pub same_end : t.early.heap_end ≡ s.early.heap_end
  same_end = ap (λ e. e.heap_end) same.early

  pub same_stats : t.early.stats ≡ s.early.stats
  same_stats = ap (λ e. e.stats) same.early

  pub same_frozen : t.early.frozen ≡ s.early.frozen
  same_frozen = ap (λ e. e.frozen) same.early

  pub same_id : t.early.next_alloc_id ≡ s.early.next_alloc_id
  same_id = ap (λ e. e.next_alloc_id) same.early

module _ (s : State) (p : ℕ) where
  pub remove-SameBlocks : SameBlocks s (remove_from_free_list p s)
  unfolding remove_from_free_list Memory.set_next Memory.set_prev
  remove-SameBlocks = record {
    header = λ x. ground arith;
    clock = ground arith;
    early = ground arith;
  }

  module _ (p0 : p ≢ 0) (no_loop : prev_of s p ≢ p) where
    remove_joined : next_of (remove_from_free_list p s) (prev_of s p) ≡ next_of s p
    unfolding remove_from_free_list Memory.set_next Memory.set_prev
    remove_joined = ground arith

    remove_same_next :
        (x : ℕ) → x ≢ prev_of s p → next_of (remove_from_free_list p s) x ≡ next_of s x
    unfolding remove_from_free_list Memory.set_next Memory.set_prev
    remove_same_next x h = ground arith

    remove_back : next_of s p ≢ 0 → prev_of (remove_from_free_list p s) (next_of s p) ≡ prev_of s p
    unfolding remove_from_free_list Memory.set_next Memory.set_prev
    remove_back h = ground arith

    remove_same_prev :
        (x : ℕ) → x ≢ next_of s p → prev_of (remove_from_free_list p s) x ≡ prev_of s x
    unfolding remove_from_free_list Memory.set_next Memory.set_prev
    remove_same_prev x h = ground arith

-- `remove_from_free_list` takes one node out of a sorted free list, and changes nothing else.
pub remove-IsFreeList :
    (s : State) (n : ℕ) (xs ys : List ℕ)
    → Sorted 0 (xs ++ n ∷ ys)
    → IsFreeList s (xs ++ n ∷ ys)
    → IsFreeList (remove_from_free_list n s) (xs ++ ys)
remove-IsFreeList s n xs ys sorted c =
    let above = Sorted-split 0 n xs ys sorted in
    let at = prev-Chain (next_of s) (prev_of s) 0 n xs ys c in
    let n0 : n ≢ 0 = λ e. omega arith in
    let no_loop : prev_of s n ≢ n = λ e. omega arith in
    let s' = remove_from_free_list n s in
    Chain-remove (next_of s) (prev_of s) (next_of s') (prev_of s') n (remove_joined s n n0 no_loop)
      (remove_same_next s n n0 no_loop) (remove_back s n n0 no_loop)
      (remove_same_prev s n n0 no_loop) 0 xs ys sorted c

-- The two ways to put a node in behind the node `q`, null for the front.
module _ (s : State) (p q : ℕ) where
  insert_at : State
  insert_at = if q == 0 then insert_first p s else insert_after p q s

  module _ (p0 : p ≢ 0) (apart : q ≢ p) (fresh : next_of s q ≢ p) where
    insert_to : next_of insert_at q ≡ p
    unfolding insert_at insert_first insert_after Memory.set_next Memory.set_prev
    insert_to = ground arith

    insert_on : next_of insert_at p ≡ next_of s q
    unfolding insert_at insert_first insert_after Memory.set_next Memory.set_prev
    insert_on = ground arith

    insert_same_next : (x : ℕ) → x ≢ q → x ≢ p → next_of insert_at x ≡ next_of s x
    unfolding insert_at insert_first insert_after Memory.set_next Memory.set_prev
    insert_same_next x h k = ground arith

    insert_from : prev_of insert_at p ≡ q
    unfolding insert_at insert_first insert_after Memory.set_next Memory.set_prev
    insert_from = ground arith

    insert_back : next_of s q ≢ 0 → prev_of insert_at (next_of s q) ≡ p
    unfolding insert_at insert_first insert_after Memory.set_next Memory.set_prev
    insert_back h = ground arith

    insert_same_prev : (x : ℕ) → x ≢ next_of s q → x ≢ p → prev_of insert_at x ≡ prev_of s x
    unfolding insert_at insert_first insert_after Memory.set_next Memory.set_prev
    insert_same_prev x h k = ground arith

  insert-SameBlocks : SameBlocks s insert_at
  unfolding insert_at insert_first insert_after Memory.set_next Memory.set_prev
  insert-SameBlocks = record {
    header = λ x. ground arith;
    clock = ground arith;
    early = ground arith;
  }

-- The loop of `insert_into_free_list` ends at the last node before `n`.
insert_position-last :
    (s : State) (fuel cur n : ℕ) (xs ys : List ℕ)
    → 48 ≤ cur
    → Below (2 ^ 64) (cur ∷ xs ++ n ∷ ys)
    → Sorted cur (xs ++ n ∷ ys)
    → Chain (next_of s) (prev_of s) cur (xs ++ ys)
    → length xs < fuel
    → insert_position fuel s.mem (header_of n) cur ≡ some (last cur xs)
unfolding insert_position
insert_position-last s zero cur n xs ys h0 b so c f = absurd (omega arith)
insert_position-last s (suc fuel) cur n [] [] h0 b so c f = ground arith
insert_position-last s (suc fuel) cur n [] (y ∷ ys) h0 b so c f = ground arith
insert_position-last s (suc fuel) cur n (x ∷ xs) ys h0 b so c f =
    let behind : (s.mem.link cur).next ≡ x = ground arith in
    let split = Sorted-split x n xs ys so.1 in
    let above = le-last x xs (n ∷ ys) so.1 in
    let small = Below-middle (2 ^ 64) n xs ys b.1.1 in
    let more : ltb (header_of x) (header_of n) ≡ true = lt→ltb _ _ (omega arith) in
    let live : (x == null) ≡ false = ≢→== _ _ (λ a. omega arith) in
    rw (behind, live, more)
      (insert_position-last s fuel x n xs ys (omega arith) b.1 so.1 c.2 (omega arith))

insert_into_free_list-at :
    (s : State) (n : ℕ) (xs ys : List ℕ)
    → Sorted 47 (xs ++ n ∷ ys)
    → Below (2 ^ 64) (xs ++ n ∷ ys)
    → IsFreeList s (xs ++ ys)
    → length xs ≤ fuel_of s
    → insert_into_free_list n s ≡ some (insert_at s n (last 0 xs))
unfolding insert_into_free_list insert_at
insert_into_free_list-at s n [] [] so b c f = ground arith
insert_into_free_list-at s n [] (y ∷ ys) so b c f = ground arith
insert_into_free_list-at s n (x ∷ xs) ys so b c f =
    let split = Sorted-split x n xs ys so.1 in
    let above = le-last x xs (n ∷ ys) so.1 in
    let small = Below-middle (2 ^ 64) n xs ys b.1 in
    let walk =
      insert_position-last s (fuel_of s) x n xs ys (omega arith) b so.1 c.2 (omega arith) in
    let head : s.early.free_list_head ≡ x = c.0 in
    let live : (x == null) ≡ false = ≢→== _ _ (λ a. omega arith) in
    let live' : (last x xs == 0) ≡ false = ≢→== _ _ (λ a. omega arith) in
    let behind : ltb (header_of n) (header_of x) ≡ false = le→ltb _ _ (omega arith) in
    rw (head, live, behind, walk, live')

-- `insert_into_free_list` ends, puts the node in its place in a sorted free list, and changes
-- nothing else.
pub insert-IsFreeList :
    (s : State) (n : ℕ) (xs ys : List ℕ)
    → Sorted 47 (xs ++ n ∷ ys)
    → Below (2 ^ 64) (xs ++ n ∷ ys)
    → IsFreeList s (xs ++ ys)
    → length xs ≤ fuel_of s
    → (s' : State) × (insert_into_free_list n s ≡ some s')
      × IsFreeList s' (xs ++ n ∷ ys)
      × SameBlocks s s'
insert-IsFreeList s n xs ys so b c f =
    let low = Sorted-weaken 47 0 (xs ++ n ∷ ys) (omega arith) so in
    let q = last 0 xs in
    let split = Sorted-split 0 n xs ys low in
    let after = next-place (next_of s) (prev_of s) 0 n xs ys low c in
    let n0 : n ≢ 0 = λ a. omega arith in
    let apart : q ≢ n = λ a. omega arith in
    let fresh : next_of s q ≢ n = λ a. omega (arith, after) in
    let s' = insert_at s n q in
    (
      s',
      insert_into_free_list-at s n xs ys so b c f,
      Chain-insert (next_of s) (prev_of s) (next_of s') (prev_of s') n q
          (insert_to s n q n0 apart fresh) (insert_on s n q n0 apart fresh)
          (insert_same_next s n q n0 apart fresh) (insert_from s n q n0 apart fresh)
          (insert_back s n q n0 apart fresh) (insert_same_prev s n q n0 apart fresh) 0 xs ys refl
          low c,
      insert-SameBlocks s n q,
    )
