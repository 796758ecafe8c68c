-- ===== src/Alloc/Handover/Sort.antt =====
-- The bubble sorts of src/init/alloc/handover.rs: an array of indices is sorted by the keys of what
-- they point to, neighbours changing places. The array is a list.
use mathlib.Core.List.Permᴰ
use mathlib.Core.List.{Permᴰ}
use nt_rustos.Common.{
  ℕ, zero, suc, ◌≤◌, ◌≡◌, refl, ap, sym, ◌∙◌, ltb, if◌then◌else◌, List, [], ◌∷◌, ◌++◌, length,
  arith, Bool-cases, inl, inr, ltb→lt, ltb→le, append_assoc,
}

module _ (key : ℕ → ℕ) where
  -- `swaps` rounds of the inner loop, from the place that the list begins with.
  unfoldable pub bubble_pass : ℕ → List ℕ → List ℕ
  bubble_pass zero xs = xs
  bubble_pass (suc swaps) [] = []
  bubble_pass (suc swaps) (x ∷ []) = x ∷ []
  bubble_pass (suc swaps) (x ∷ y ∷ xs) =
      let swapped = y ∷ bubble_pass swaps (x ∷ xs) in
      let kept = x ∷ bubble_pass swaps (y ∷ xs) in if ltb (key y) (key x) then swapped else kept

  -- The outer loop: `left` passes are left, and the next one has `left - 1` rounds.
  unfoldable pub bubble_sort : ℕ → List ℕ → List ℕ
  bubble_sort zero xs = xs
  bubble_sort (suc left) xs = bubble_sort left (bubble_pass left xs)

  -- The key of each element of a list is at most `n`, and the keys of a list do not fall.
  abbrev pub AtMost : ℕ → List ℕ → Type 0
  AtMost n [] = Unit {0}
  AtMost n (x ∷ xs) = (key x ≤ n) × AtMost n xs

  abbrev pub AtLeast : ℕ → List ℕ → Type 0
  AtLeast n [] = Unit {0}
  AtLeast n (x ∷ xs) = (n ≤ key x) × AtLeast n xs

  abbrev pub Ascending : List ℕ → Type 0
  Ascending [] = Unit {0}
  Ascending (x ∷ xs) = AtLeast (key x) xs × Ascending xs

  AtMost-weaken : (n m : ℕ) (xs : List ℕ) → n ≤ m → AtMost n xs → AtMost m xs
  AtMost-weaken n m [] h a = tt
  AtMost-weaken n m (x ∷ xs) h (b, a) = (omega (arith, b), AtMost-weaken n m xs h a)

  AtMost-Permᴰ : (n : ℕ) (xs ys : List ℕ) → Permᴰ xs ys → AtMost n xs → AtMost n ys
  AtMost-Permᴰ n _ _ Permᴰ.nil a = tt
  AtMost-Permᴰ n _ _ (Permᴰ.cons e p) (b, a) = (rw (← e) b, AtMost-Permᴰ n _ _ p a)
  AtMost-Permᴰ n _ _ (Permᴰ.swap e f) (b, (c, a)) = (rw (← f) c, (rw (← e) b, a))
  AtMost-Permᴰ n _ _ (Permᴰ.trans p q) a = AtMost-Permᴰ n _ _ q (AtMost-Permᴰ n _ _ p a)

  AtLeast-snoc : (n m : ℕ) (xs : List ℕ) → AtLeast n xs → n ≤ key m → AtLeast n (xs ++ (m ∷ []))
  AtLeast-snoc n m [] a h = (h, tt)
  AtLeast-snoc n m (x ∷ xs) (b, a) h = (b, AtLeast-snoc n m xs a h)

  Ascending-snoc :
      (m : ℕ) (xs : List ℕ) → Ascending xs → AtMost (key m) xs → Ascending (xs ++ (m ∷ []))
  Ascending-snoc m [] a h = (tt, tt)
  Ascending-snoc m (x ∷ xs) (b, a) (h, t) = (AtLeast-snoc (key x) m xs b h, Ascending-snoc m xs a t)

  -- One pass brings an element with the largest key to the end.
  pass_result :
      (swaps x : ℕ) (xs : List ℕ)
      → length xs ≡ swaps
      → (ms : List ℕ) × (m : ℕ) × (bubble_pass swaps (x ∷ xs) ≡ ms ++ (m ∷ []))
        × (length ms ≡ swaps)
        × Permᴰ (x ∷ xs) (ms ++ (m ∷ []))
        × AtMost (key m) ms
        × (key x ≤ key m)
  unfolding bubble_pass
  pass_result zero x [] h = ([], x, refl, refl, Permᴰ.refl (x ∷ []), tt, omega arith)
  pass_result zero x (y ∷ xs) h = absurd (omega (arith, h))
  pass_result (suc swaps) x [] h = absurd (omega (arith, h))
  pass_result (suc swaps) x (y ∷ xs) h = elim (Bool-cases (ltb (key y) (key x))) [
    | inl less ↦
        let (ms, m, e, l, p, a, k) = pass_result swaps x xs (omega (arith, h)) in
        (
          y ∷ ms,
          m,
          rw (less, e) refl,
          ap suc l,
          Permᴰ.trans (Permᴰ.swap refl refl) (Permᴰ.cons refl p),
          (omega (arith, ltb→lt _ _ less, k), a),
          k,
        )
    | inr more ↦
        let (ms, m, e, l, p, a, k) = pass_result swaps y xs (omega (arith, h)) in
        let above = ltb→le _ _ more in
        (
          x ∷ ms,
          m,
          rw (more, e) refl,
          ap suc l,
          Permᴰ.cons refl p,
          (omega (arith, above, k), a),
          omega (arith, above, k),
        )
  ]

  -- What stands behind the places of a pass, or of the sort, stays.
  bubble_pass-append :
      (swaps x : ℕ) (xs ys : List ℕ)
      → length xs ≡ swaps
      → bubble_pass swaps (x ∷ (xs ++ ys)) ≡ bubble_pass swaps (x ∷ xs) ++ ys
  unfolding bubble_pass
  bubble_pass-append zero x [] ys h = refl
  bubble_pass-append zero x (y ∷ xs) ys h = absurd (omega (arith, h))
  bubble_pass-append (suc swaps) x [] ys h = absurd (omega (arith, h))
  bubble_pass-append (suc swaps) x (y ∷ xs) ys h = elim (Bool-cases (ltb (key y) (key x))) [
    | inl less ↦ rw less (ap (λ l. y ∷ l) (bubble_pass-append swaps x xs ys (omega (arith, h))))
    | inr more ↦ rw more (ap (λ l. x ∷ l) (bubble_pass-append swaps y xs ys (omega (arith, h))))
  ]

  -- The sort of the first `n` places.
  pub bubble_sort-Ascending :
      (n : ℕ) (xs ys : List ℕ)
      → length xs ≡ n
      → (zs : List ℕ) × (bubble_sort n (xs ++ ys) ≡ zs ++ ys) × Permᴰ xs zs × Ascending zs
  unfolding bubble_sort
  bubble_sort-Ascending zero [] ys h = ([], refl, Permᴰ.nil, tt)
  bubble_sort-Ascending zero (x ∷ xs) ys h = absurd (omega (arith, h))
  bubble_sort-Ascending (suc n) [] ys h = absurd (omega (arith, h))
  bubble_sort-Ascending (suc n) (x ∷ xs) ys h =
      let fit : length xs ≡ n = omega (arith, h) in
      let (ms, m, e, l, p, a, k) = pass_result n x xs fit in
      let (zs, f, q, s) = bubble_sort-Ascending n ms (m ∷ ys) l in
      (
        zs ++ (m ∷ []),
        ap (bubble_sort n)
              (bubble_pass-append n x xs ys fit ∙ ap (λ l. l ++ ys) e ∙ append_assoc ms (m ∷ []) ys)
            ∙ f
            ∙ sym (append_assoc zs (m ∷ []) ys),
        Permᴰ.trans p (Permᴰ.append_right (m ∷ []) q),
        Ascending-snoc m zs s (AtMost-Permᴰ (key m) ms zs q a),
      )
