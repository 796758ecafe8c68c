-- ===== src/Alloc/Early/InUse.antt =====
-- The addresses that the allocated blocks of a heap give to their users.
use mathlib.Core.Path.{subst}
use nt_rustos.Common.{ℕ, ◌+◌, ◌≤◌, ◌≡◌, ◌≢◌, refl, ap, ◌⊎◌, inl, inr, List, [], ◌∷◌, ◌++◌, arith}
use nt_rustos.Alloc.Early.Layout.{Block, free_block, allocated_block, span}
use nt_rustos.Alloc.Early.MergePrev.{join_prev}
use nt_rustos.Alloc.Early.Coalesce.{released}

-- In the row of blocks from `a` on, `p` is the user's address of an allocated block.
abbrev pub InUse : ℕ → List Block → ℕ → Type 0
InUse a [] p = ⊥
InUse a (free_block n ∷ bs) p = InUse (a + n + 48) bs p
InUse a (allocated_block n ∷ bs) p = (a + 48 ≡ p) ⊎ InUse (a + n + 48) bs p

InUse-move : (a b : ℕ) (bs : List Block) (p : ℕ) → a ≡ b → InUse a bs p → InUse b bs p
InUse-move a b bs p e u = subst (λ x. InUse x bs p) e u

pub InUse-low : (a : ℕ) (bs : List Block) (p : ℕ) → InUse a bs p → a + 48 ≤ p
InUse-low a [] p u = absurd u
InUse-low a (free_block n ∷ bs) p u = omega (arith, InUse-low (a + n + 48) bs p u)
InUse-low a (allocated_block n ∷ bs) p (inl e) = omega (arith, e)
InUse-low a (allocated_block n ∷ bs) p (inr u) = omega (arith, InUse-low (a + n + 48) bs p u)

InUse-high : (a : ℕ) (bs : List Block) (p : ℕ) → InUse a bs p → p ≤ a + span bs
InUse-high a [] p u = absurd u
InUse-high a (free_block n ∷ bs) p u = omega (arith, InUse-high (a + n + 48) bs p u)
InUse-high a (allocated_block n ∷ bs) p (inl e) = omega (arith, e)
InUse-high a (allocated_block n ∷ bs) p (inr u) = omega (arith, InUse-high (a + n + 48) bs p u)

InUse-split :
    (a : ℕ) (xs ys : List Block) (p : ℕ)
    → InUse a (xs ++ ys) p
    → InUse a xs p ⊎ InUse (a + span xs) ys p
InUse-split a [] ys p u = inr (InUse-move a (a + 0) ys p (omega arith) u)
InUse-split a (free_block n ∷ xs) ys p u = elim (InUse-split (a + n + 48) xs ys p u) [
  | inl l ↦ inl l
  | inr r ↦
      inr (InUse-move (a + n + 48 + span xs) (a + span (free_block n ∷ xs)) ys p (omega arith) r)
]
InUse-split a (allocated_block n ∷ xs) ys p (inl e) = inl (inl e)
InUse-split a (allocated_block n ∷ xs) ys p (inr u) = elim (InUse-split (a + n + 48) xs ys p u) [
  | inl l ↦ inl (inr l)
  | inr r ↦
      inr
        (InUse-move (a + n + 48 + span xs) (a + span (allocated_block n ∷ xs)) ys p (omega arith) r)
]

InUse-left : (a : ℕ) (xs ys : List Block) (p : ℕ) → InUse a xs p → InUse a (xs ++ ys) p
InUse-left a [] ys p u = absurd u
InUse-left a (free_block n ∷ xs) ys p u = InUse-left (a + n + 48) xs ys p u
InUse-left a (allocated_block n ∷ xs) ys p (inl e) = inl e
InUse-left a (allocated_block n ∷ xs) ys p (inr u) = inr (InUse-left (a + n + 48) xs ys p u)

InUse-right :
    (a b : ℕ) (xs ys : List Block) (p : ℕ) → a + span xs ≡ b → InUse b ys p → InUse a (xs ++ ys) p
InUse-right a b [] ys p e u = InUse-move b a ys p (omega (arith, e)) u
InUse-right a b (free_block n ∷ xs) ys p e u =
    InUse-right (a + n + 48) b xs ys p (omega (arith, e)) u
InUse-right a b (allocated_block n ∷ xs) ys p e u =
    inr (InUse-right (a + n + 48) b xs ys p (omega (arith, e)) u)

-- An address in use is that of a block of the row.
pub InUse-block :
    (a : ℕ) (bs : List Block) (p : ℕ)
    → InUse a bs p
    → (pre : List Block) × (n : ℕ) × (post : List Block) × (bs ≡ pre ++ allocated_block n ∷ post)
      × (a + span pre + 48 ≡ p)
InUse-block a [] p u = absurd u
InUse-block a (free_block k ∷ bs) p u =
    let (pre, n, post, e, h) = InUse-block (a + k + 48) bs p u in
    (free_block k ∷ pre, n, post, ap (λ l. free_block k ∷ l) e, omega (arith, h))
InUse-block a (allocated_block k ∷ bs) p (inl e) = ([], k, bs, refl, omega (arith, e))
InUse-block a (allocated_block k ∷ bs) p (inr u) =
    let (pre, n, post, e, h) = InUse-block (a + k + 48) bs p u in
    (allocated_block k ∷ pre, n, post, ap (λ l. allocated_block k ∷ l) e, omega (arith, h))

-- A free block is split or taken whole: what was in use stays in use, and its address is new.
pub InUse-taken :
    (a : ℕ) (pre post left : List Block) (room k p : ℕ)
    → k + 48 + span left ≡ room + 48
    → InUse a (pre ++ free_block room ∷ post) p
    → InUse a (pre ++ allocated_block k ∷ (left ++ post)) p × (p ≢ a + span pre + 48)
InUse-taken a pre post left room k p w u = elim (InUse-split a pre (free_block room ∷ post) p u) [
  | inl l ↦ (
    InUse-left a pre (allocated_block k ∷ (left ++ post)) p l,
    λ e. omega (arith, InUse-high a pre p l, e),
  )
  | inr r ↦ (
    InUse-right a (a + span pre) pre (allocated_block k ∷ (left ++ post)) p refl (
        inr (
          InUse-right (a + span pre + k + 48) (a + span pre + room + 48) left post p
            (omega (arith, w)) r)),
    λ e. omega (arith, InUse-low (a + span pre + room + 48) post p r, e),
  )
]

pub InUse-new :
    (a : ℕ) (pre post : List Block) (k p : ℕ)
    → a + span pre + 48 ≡ p
    → InUse a (pre ++ allocated_block k ∷ post) p
InUse-new a pre post k p e =
    InUse-right a (a + span pre) pre (allocated_block k ∷ post) p refl (inl e)

InUse-join :
    (a b : ℕ) (pre : List Block) (n : ℕ) (post : List Block) (q : ℕ)
    → a + span pre + n + 48 ≡ b
    → InUse a pre q ⊎ InUse b post q
    → InUse a (join_prev pre n post) q
InUse-join a b [] n post q e (inl u) = absurd u
InUse-join a b [] n post q e (inr u) = InUse-move b (a + n + 48) post q (omega (arith, e)) u
InUse-join a b (free_block k ∷ []) n post q e (inl u) = absurd u
InUse-join a b (free_block k ∷ []) n post q e (inr u) =
    InUse-move b (a + (k + n + 48) + 48) post q (omega (arith, e)) u
InUse-join a b (allocated_block k ∷ []) n post q e (inl (inl h)) = inl h
InUse-join a b (allocated_block k ∷ []) n post q e (inl (inr u)) = absurd u
InUse-join a b (allocated_block k ∷ []) n post q e (inr u) =
    inr (InUse-move b (a + k + 48 + n + 48) post q (omega (arith, e)) u)
InUse-join a b (free_block k ∷ c ∷ pre) n post q e u =
    InUse-join (a + k + 48) b (c ∷ pre) n post q (omega (arith, e)) u
InUse-join a b (allocated_block k ∷ c ∷ pre) n post q e (inl (inl h)) = inl h
InUse-join a b (allocated_block k ∷ c ∷ pre) n post q e (inl (inr u)) =
    inr (InUse-join (a + k + 48) b (c ∷ pre) n post q (omega (arith, e)) (inl u))
InUse-join a b (allocated_block k ∷ c ∷ pre) n post q e (inr u) =
    inr (InUse-join (a + k + 48) b (c ∷ pre) n post q (omega (arith, e)) (inr u))

InUse-beside :
    (a : ℕ) (pre : List Block) (n : ℕ) (post : List Block) (q : ℕ)
    → InUse a pre q ⊎ InUse (a + span pre + n + 48) post q
    → InUse a (released pre n post) q
InUse-beside a pre n [] q u = InUse-join a (a + span pre + n + 48) pre n [] q refl u
InUse-beside a pre n (free_block m ∷ post) q (inl u) =
    InUse-join a (a + span pre + n + 48 + m + 48) pre (n + m + 48) post q (omega arith) (inl u)
InUse-beside a pre n (free_block m ∷ post) q (inr u) =
    InUse-join a (a + span pre + n + 48 + m + 48) pre (n + m + 48) post q (omega arith) (inr u)
InUse-beside a pre n (allocated_block m ∷ post) q u =
    InUse-join a (a + span pre + n + 48) pre n (allocated_block m ∷ post) q refl u

-- A block is released and joined with its free neighbours: the other addresses stay in use.
pub InUse-released :
    (a : ℕ) (pre : List Block) (n : ℕ) (post : List Block) (q : ℕ)
    → q ≢ a + span pre + 48
    → InUse a (pre ++ allocated_block n ∷ post) q
    → InUse a (released pre n post) q
InUse-released a pre n post q other u = elim (InUse-split a pre (allocated_block n ∷ post) q u) [
  | inl l ↦ InUse-beside a pre n post q (inl l)
  | inr (inl e) ↦ absurd (other (omega (arith, e)))
  | inr (inr r) ↦ InUse-beside a pre n post q (inr r)
]
