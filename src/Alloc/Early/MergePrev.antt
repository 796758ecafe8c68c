-- ===== src/Alloc/Early/MergePrev.antt =====
-- `merge_prev`: a free block is joined with the block before it, if that is free.
use mathlib.Core.Path.{subst}
use nt_rustos.Common.{
  ℕ, ◌+◌, ◌<◌, ◌≤◌, ◌≡◌, ◌⊎◌, inl, inr, refl, sym, ap, ◌∙◌, List, [], ◌∷◌, ◌++◌, append_assoc,
  append-nil, arith, add64, ◌==◌, ==_refl, false, ≢→==,
}
use nt_rustos.Alloc.Header.{total_size}
use nt_rustos.Alloc.Memory.{Memory, null}
use nt_rustos.Alloc.Early.{State, merge_prev, header_of}
use nt_rustos.Alloc.Early.Chain.{last, prev-Chain}
use nt_rustos.Alloc.Early.Links.{prev_of, next_of}
use nt_rustos.Alloc.Early.Layout.{
  Block, free_block, allocated_block, span, nodes, Tiles, Tiles-end, Tiles-split, nodes-append,
  span-append,
}
use nt_rustos.Alloc.Early.Invariant.{Inv}
use nt_rustos.Alloc.Early.Take.{here_Tiles, list_around}
use nt_rustos.Alloc.Early.Absorb.{absorbed-Inv}
use nt_rustos.Alloc.Early.MergeNext.{small, block_here}

-- The blocks `pre` before a free block of `n` bytes, joined with the last of them if that is free.
abbrev pub join_prev : List Block → ℕ → List Block → List Block
join_prev [] n post = free_block n ∷ post
join_prev (free_block k ∷ []) n post = free_block (k + n + 48) ∷ post
join_prev (allocated_block k ∷ []) n post = allocated_block k ∷ free_block n ∷ post
join_prev (b ∷ c ∷ pre) n post = b ∷ join_prev (c ∷ pre) n post

join_prev-free :
    (pre : List Block) (k n : ℕ) (post : List Block)
    → join_prev (pre ++ free_block k ∷ []) n post ≡ pre ++ free_block (k + n + 48) ∷ post
join_prev-free [] k n post = refl
join_prev-free (b ∷ []) k n post = refl
join_prev-free (b ∷ c ∷ pre) k n post = ap (λ l. b ∷ l) (join_prev-free (c ∷ pre) k n post)

join_prev-allocated :
    (pre : List Block) (k n : ℕ) (post : List Block)
    → join_prev (pre ++ allocated_block k ∷ []) n post
      ≡ pre ++ allocated_block k ∷ free_block n ∷ post
join_prev-allocated [] k n post = refl
join_prev-allocated (b ∷ []) k n post = refl
join_prev-allocated (b ∷ c ∷ pre) k n post =
    ap (λ l. b ∷ l) (join_prev-allocated (c ∷ pre) k n post)

-- The last block of a row, if there is one.
last_block : (l : List Block) → (l ≡ []) ⊎ ((xs : List Block) × (b : Block) × (l ≡ xs ++ b ∷ []))
last_block [] = inl refl
last_block (b ∷ l) = elim (last_block l) [
  | inl e ↦ inr ([], b, ap (λ k. b ∷ k) e)
  | inr (xs, c, e) ↦ inr (b ∷ xs, c, ap (λ k. b ∷ k) e)
]

-- The last free block of a row ends where the row does, or before.
last_node :
    (m : Memory) (p a e : ℕ) (bs : List Block)
    → Tiles m a bs e
    → (last p (nodes a bs) ≡ p)
      ⊎ ((z : ℕ) × (last p (nodes a bs) ≡ z + 48) × (z + (m.header z).size + 48 ≤ e))
last_node m p a e [] t = inl refl
last_node m p a e (allocated_block n ∷ bs) t = last_node m p (a + n + 48) e bs t.4
last_node m p a e (free_block n ∷ bs) t = elim (last_node m (a + 48) (a + n + 48) e bs t.4) [
  | inl h ↦ inr (a, h, rw t.0 (omega (arith, Tiles-end m (a + n + 48) e bs t.4)))
  | inr h ↦ inr h
]

last-append : (p z : ℕ) (xs : List ℕ) → last p (xs ++ z ∷ []) ≡ z
last-append p z [] = refl
last-append p z (x ∷ xs) = last-append x z xs

prev_of-node :
    (s : State) (pre post : List Block) (n at : ℕ)
    → Inv s (pre ++ free_block n ∷ post)
    → s.early.heap_start + span pre ≡ at
    → prev_of s (at + 48) ≡ last 0 (nodes s.early.heap_start pre)
prev_of-node s pre post n at inv place =
    prev-Chain (next_of s) (prev_of s) 0 (at + 48) (nodes s.early.heap_start pre)
      (nodes (at + n + 48) post) (rw (← list_around s pre post n at inv place) inv.chain)

-- Where the free nodes before the block end before it, `merge_prev` does nothing.
merge_prev-skip :
    (s : State) (pre post : List Block) (n at : ℕ)
    → Inv s (pre ++ free_block n ∷ post)
    → s.early.heap_start + span pre ≡ at
    → (last 0 (nodes s.early.heap_start pre) ≡ 0)
      ⊎ ((z : ℕ) × (last 0 (nodes s.early.heap_start pre) ≡ z + 48)
          × (z + (s.mem.header z).size + 48 < at))
    → merge_prev (at + 48) s ≡ s
unfolding merge_prev
merge_prev-skip s pre post n at inv place (inl e) = rw (prev_of-node s pre post n at inv place ∙ e)
merge_prev-skip s pre post n at inv place (inr (z, e, gap)) =
    let prev = prev_of-node s pre post n at inv place ∙ e in
    let low = small s pre post n at inv place in
    let head : header_of (z + 48) ≡ z = omega arith in
    let here = block_here s pre post n at inv place in
    let apart : (add64 z (total_size (s.mem.header z)) == at) ≡ false =
      ≢→== _ _ (λ a. omega arith) in
    let live : (z + 48 == null) ≡ false = ≢→== _ _ (λ a. omega arith) in
    rw (prev, head, here, apart, live)

-- The block before is free.
merge_prev-free :
    (s : State) (xs post : List Block) (k n : ℕ)
    → Inv s ((xs ++ free_block k ∷ []) ++ free_block n ∷ post)
    → Inv
        (merge_prev (s.early.heap_start + span xs + k + 48 + 48) s)
        (xs ++ free_block (k + n + 48) ∷ post)
unfolding merge_prev
merge_prev-free s xs post k n inv =
    let x = s.early.heap_start + span xs in
    let whole = subst (Inv s) (append_assoc xs (free_block k ∷ []) (free_block n ∷ post)) inv in
    let place : s.early.heap_start + span (xs ++ free_block k ∷ []) ≡ x + k + 48 =
      omega (arith, span-append xs (free_block k ∷ [])) in
    let found : last 0 (nodes s.early.heap_start (xs ++ free_block k ∷ [])) ≡ x + 48 =
      rw (nodes-append s.early.heap_start xs (free_block k ∷ []))
        (last-append 0 (x + 48) (nodes s.early.heap_start xs)) in
    let prev = prev_of-node s (xs ++ free_block k ∷ []) post n (x + k + 48) inv place ∙ found in
    let low = small s (xs ++ free_block k ∷ []) post n (x + k + 48) inv place in
    let head : header_of (x + 48) ≡ x = omega arith in
    let here = block_here s (xs ++ free_block k ∷ []) post n (x + k + 48) inv place in
    let size = (here_Tiles s xs (free_block n ∷ post) k x whole refl).0 in
    let touch : add64 x (add64 k 48) ≡ x + k + 48 = omega arith in
    let live : (x + 48 == null) ≡ false = ≢→== _ _ (λ a. omega arith) in
    rw (prev, head, here, size, touch, live, ==_refl (x + k + 48))
      (absorbed-Inv s xs post k n x whole refl)

-- The block before is allocated.
merge_prev-allocated :
    (s : State) (xs post : List Block) (k n : ℕ)
    → Inv s ((xs ++ allocated_block k ∷ []) ++ free_block n ∷ post)
    → merge_prev (s.early.heap_start + span xs + k + 48 + 48) s ≡ s
merge_prev-allocated s xs post k n inv =
    let start = s.early.heap_start in
    let x = start + span xs in
    let whole =
      subst (Inv s) (append_assoc xs (allocated_block k ∷ []) (free_block n ∷ post)) inv in
    let place : start + span (xs ++ allocated_block k ∷ []) ≡ x + k + 48 =
      omega (arith, span-append xs (allocated_block k ∷ [])) in
    let same : nodes start (xs ++ allocated_block k ∷ []) ≡ nodes start xs =
      nodes-append start xs (allocated_block k ∷ []) ∙ append-nil (nodes start xs) in
    let tiles =
      (Tiles-split s.mem start x s.early.heap_end xs (allocated_block k ∷ free_block n ∷ post) refl
        whole.tiles).0 in
    merge_prev-skip s (xs ++ allocated_block k ∷ []) post n (x + k + 48) inv place
      (elim (last_node s.mem 0 start x xs tiles) [
        | inl e ↦ inl (rw same e)
        | inr (z, e, h) ↦ inr (z, rw same e, omega arith)
      ])

abbrev PrevJoins : State → ℕ → List Block → ℕ → List Block → Type 0
PrevJoins s at pre n post =
    Inv s (pre ++ free_block n ∷ post)
    → s.early.heap_start + span pre ≡ at
    → Inv (merge_prev (at + 48) s) (join_prev pre n post)

merge_prev-last :
    (s : State) (xs : List Block) (b : Block) (post : List Block) (n at : ℕ)
    → PrevJoins s at (xs ++ b ∷ []) n post
merge_prev-last s xs (free_block k) post n at inv place =
    let there : s.early.heap_start + span xs + k + 48 ≡ at =
      omega (arith, span-append xs (free_block k ∷ [])) in
    rw (join_prev-free xs k n post, ← there) (merge_prev-free s xs post k n inv)
merge_prev-last s xs (allocated_block k) post n at inv place =
    let there : s.early.heap_start + span xs + k + 48 ≡ at =
      omega (arith, span-append xs (allocated_block k ∷ [])) in
    rw (join_prev-allocated xs k n post, ← there, merge_prev-allocated s xs post k n inv)
      (subst (Inv s) (append_assoc xs (allocated_block k ∷ []) (free_block n ∷ post)) inv)

-- `merge_prev` keeps the invariant, and joins the block with the one before it exactly if that is
-- free.
pub merge_prev-Inv : (s : State) (pre post : List Block) (n at : ℕ) → PrevJoins s at pre n post
merge_prev-Inv s pre post n at = elim (last_block pre) [
  | inl e ↦
      subst (λ l. PrevJoins s at l n post) (sym e)
        (λ inv place. rw (merge_prev-skip s [] post n at inv place (inl refl)) inv)
  | inr (xs, b, e) ↦ subst (λ l. PrevJoins s at l n post) (sym e) (merge_prev-last s xs b post n at)
]
