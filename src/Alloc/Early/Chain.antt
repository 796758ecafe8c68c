-- ===== src/Alloc/Early/Chain.antt =====
-- Doubly linked lists that begin and end at null, as two functions on addresses: taking a node out
-- and putting one in. The list's head is what follows null.
use nt_rustos.Common.{ℕ, ◌<◌, ◌≤◌, ◌≡◌, ◌≢◌, ◌∙◌, ◌⊎◌, inl, inr, List, [], ◌∷◌, ◌++◌, arith}

-- From the node `p` on the nodes are `ns`, and then null.
abbrev pub Chain : (ℕ → ℕ) → (ℕ → ℕ) → ℕ → List ℕ → Type 0
Chain next prev p [] = next p ≡ 0
Chain next prev p (n ∷ ns) = (next p ≡ n) × (prev n ≡ p) × Chain next prev n ns

-- Strictly increasing from above `p`.
abbrev pub Sorted : ℕ → List ℕ → Type 0
Sorted p [] = Unit
Sorted p (n ∷ ns) = (p < n) × Sorted n ns

-- The last element, or `p` if there is none.
abbrev pub last : ℕ → List ℕ → ℕ
last p [] = p
last p (n ∷ ns) = last n ns

-- Every element is below `e`.
abbrev pub Below : ℕ → List ℕ → Type 0
Below e [] = Unit
Below e (n ∷ ns) = (n < e) × Below e ns

pub Below-middle : (e n : ℕ) (xs ys : List ℕ) → Below e (xs ++ n ∷ ys) → n < e
Below-middle e n [] ys b = b.0
Below-middle e n (x ∷ xs) ys b = Below-middle e n xs ys b.1

pub Sorted-weaken : (p q : ℕ) (ns : List ℕ) → q ≤ p → Sorted p ns → Sorted q ns
Sorted-weaken p q [] h s = tt
Sorted-weaken p q (n ∷ ns) h s = (omega arith, s.1)

pub le-last : (p : ℕ) (xs ys : List ℕ) → Sorted p (xs ++ ys) → p ≤ last p xs
le-last p [] ys s = omega arith
le-last p (x ∷ xs) ys s = omega (arith, le-last x xs ys s.1)

-- A chain that no change touches stays one.
pub Chain-frame :
    (next prev next' prev' : ℕ → ℕ) (p : ℕ) (ns : List ℕ)
    → Sorted p ns
    → ((x : ℕ) → p ≤ x → next' x ≡ next x)
    → ((x : ℕ) → p < x → prev' x ≡ prev x)
    → Chain next prev p ns
    → Chain next' prev' p ns
Chain-frame next prev next' prev' p [] s hn hp c = hn p (omega arith) ∙ c
Chain-frame next prev next' prev' p (n ∷ ns) s hn hp c = (
  hn p (omega arith) ∙ c.0,
  hp n s.0 ∙ c.1,
  Chain-frame next prev next' prev' n ns s.1 (λ x h. hn x (omega arith)) (λ x h. hp x (omega arith))
      c.2,
)

-- The node that follows one on a sorted chain is null or above it.
pub next-Chain :
    (next prev : ℕ → ℕ) (p : ℕ) (ns : List ℕ)
    → Sorted p ns
    → Chain next prev p ns
    → (next p ≡ 0) ⊎ (p < next p)
next-Chain next prev p [] s c = inl c
next-Chain next prev p (n ∷ ns) s c = inr (omega arith)

pub prev-Chain :
    (next prev : ℕ → ℕ) (p n : ℕ) (xs ys : List ℕ)
    → Chain next prev p (xs ++ n ∷ ys)
    → prev n ≡ last p xs
prev-Chain next prev p n [] ys c = c.1
prev-Chain next prev p n (x ∷ xs) ys c = prev-Chain next prev x n xs ys c.2

pub next-last :
    (next prev : ℕ → ℕ) (p n : ℕ) (xs ys : List ℕ)
    → Chain next prev p (xs ++ n ∷ ys)
    → next (last p xs) ≡ n
next-last next prev p n [] ys c = c.0
next-last next prev p n (x ∷ xs) ys c = next-last next prev x n xs ys c.2

pub Sorted-split :
    (p n : ℕ) (xs ys : List ℕ) → Sorted p (xs ++ n ∷ ys) → (last p xs < n) × Sorted n ys
Sorted-split p n [] ys s = s
Sorted-split p n (x ∷ xs) ys s = Sorted-split x n xs ys s.1

pub Chain-split :
    (next prev : ℕ → ℕ) (p n : ℕ) (xs ys : List ℕ)
    → Chain next prev p (xs ++ n ∷ ys)
    → Chain next prev n ys
Chain-split next prev p n [] ys c = c.2
Chain-split next prev p n (x ∷ xs) ys c = Chain-split next prev x n xs ys c.2

-- Taking `n` out: its neighbours are joined, and no other link changes.
module _ (next prev next' prev' : ℕ → ℕ) (n : ℕ) (joined : next' (prev n) ≡ next n)
    (same_next : (x : ℕ) → x ≢ prev n → next' x ≡ next x)
    (back : next n ≢ 0 → prev' (next n) ≡ prev n)
    (same_prev : (x : ℕ) → x ≢ next n → prev' x ≡ prev x) where
  pub Chain-remove :
      (p : ℕ) (xs ys : List ℕ)
      → Sorted p (xs ++ n ∷ ys)
      → Chain next prev p (xs ++ n ∷ ys)
      → Chain next' prev' p (xs ++ ys)
  Chain-remove p [] [] s c = ground (arith, joined)
  Chain-remove p [] (y ∷ ys) s c = (
    ground (arith, joined),
    ground (arith, back (omega arith)),
    Chain-frame next prev next' prev' y ys s.1.1 (λ x h. same_next x (λ e. omega arith))
        (λ x h. same_prev x (λ e. omega arith)) c.2.2,
  )
  Chain-remove p (x ∷ xs) ys s c =
      let at = prev-Chain next prev x n xs ys c.2 in
      let above = le-last x xs (n ∷ ys) s.1 in
      let split = Sorted-split x n xs ys s.1 in
      let after = next-Chain next prev n ys split.1 (Chain-split next prev x n xs ys c.2) in
      (
        same_next p (λ e. omega arith) ∙ c.0,
        same_prev x (λ e. ground (arith, after)) ∙ c.1,
        Chain-remove x xs ys s.1 c.2,
      )

-- What stands behind a place for `n` is null or above `n`.
pub next-place :
    (next prev : ℕ → ℕ) (p n : ℕ) (xs ys : List ℕ)
    → Sorted p (xs ++ n ∷ ys)
    → Chain next prev p (xs ++ ys)
    → (next (last p xs) ≡ 0) ⊎ (n < next (last p xs))
next-place next prev p n [] [] s c = inl c
next-place next prev p n [] (y ∷ ys) s c = inr (omega arith)
next-place next prev p n (x ∷ xs) ys s c = next-place next prev x n xs ys s.1 c.2

-- Putting `n` in behind the node `q`.
module _ (next prev next' prev' : ℕ → ℕ) (n q : ℕ) (to : next' q ≡ n) (on : next' n ≡ next q)
    (same_next : (x : ℕ) → x ≢ q → x ≢ n → next' x ≡ next x) (from : prev' n ≡ q)
    (back : next q ≢ 0 → prev' (next q) ≡ n)
    (same_prev : (x : ℕ) → x ≢ next q → x ≢ n → prev' x ≡ prev x) where
  pub Chain-insert :
      (p : ℕ) (xs ys : List ℕ)
      → q ≡ last p xs
      → Sorted p (xs ++ n ∷ ys)
      → Chain next prev p (xs ++ ys)
      → Chain next' prev' p (xs ++ n ∷ ys)
  Chain-insert p [] [] e s c = ground (arith, to, on, from)
  Chain-insert p [] (y ∷ ys) e s c =
      let behind : next q ≡ y = rw e c.0 in
      (
        ground (arith, to),
        ground (arith, from),
        (
          on ∙ behind,
          ground (arith, back (omega arith)),
          Chain-frame next prev next' prev' y ys s.1.1
              (λ x h. same_next x (λ a. omega arith) (λ a. omega arith))
              (λ x h. same_prev x (λ a. omega arith) (λ a. omega arith)) c.2,
        ),
      )
  Chain-insert p (x ∷ xs) ys e s c =
      let above = le-last x xs (n ∷ ys) s.1 in
      let split = Sorted-split x n xs ys s.1 in
      let after = next-place next prev x n xs ys s.1 c.2 in
      (
        same_next p (λ a. omega arith) (λ a. omega arith) ∙ c.0,
        same_prev x (λ h. ground (arith, after)) (λ a. omega arith) ∙ c.1,
        Chain-insert x xs ys e s.1 c.2,
      )
