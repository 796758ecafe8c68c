-- ===== src/Trap/Handlers/Dropping.antt =====
-- The handlers of a trap type without those of a description at a priority.
use Prim.Native.String.{String}
use mathlib.Core.Path.{subst}
use nt_rustos.Common.{
  ℕ, ◌+◌, ◌<◌, ◌≤◌, ◌≡◌, ◌≢◌, refl, ap, sym, ◌∙◌, List, [], ◌∷◌, ◌++◌, arith, ltb, ◌==◌, ◌&&◌,
  if◌then◌else◌, true, false, Bool-cases, Option-cases, inl, inr, Option, none, some, ltb→lt, ==→≡,
  ==→≢, ≢→==, ==_refl, le→ltb,
}
use nt_rustos.Trap.Order.{in_order, AllOf, Keyed}
use nt_rustos.Trap.Handlers.{HandlerEntry, PriorityMap, lookup, insert}
use nt_rustos.Trap.Handlers.Unregister.{same_text, remove, retain_others, drop_described}
use nt_rustos.Trap.Handlers.Registered.{insert-past, insert-here, lookup-front}

module _ {Context : Type 0} (entries : ℕ → HandlerEntry Context) (d : String) (p : ℕ) where
  abbrev number : ℕ → ℕ
  number a = (entries a).priority

  -- The handlers but those of the description at the priority.
  abbrev pub others : List ℕ → List ℕ
  others [] = []
  others (a ∷ refs) =
      let rest = others refs in
      if number a == p && same_text (entries a).description d then rest else a ∷ rest

  others-append : (xs ys : List ℕ) → others (xs ++ ys) ≡ others xs ++ others ys
  others-append [] ys = refl
  others-append (x ∷ xs) ys =
      elim (Bool-cases (number x == p && same_text (entries x).description d)) [
        | inl e ↦ rw e (others-append xs ys)
        | inr e ↦ rw e (ap (λ l. x ∷ l) (others-append xs ys))
      ]

  others-here : (refs : List ℕ) → AllOf number p refs → others refs ≡ retain_others entries d refs
  others-here [] h = refl
  others-here (a ∷ refs) h =
      let same : (number a == p) ≡ true = rw h.0 (==_refl p) in
      elim (Bool-cases (same_text (entries a).description d)) [
        | inl e ↦ rw (same, e) (others-here refs h.1)
        | inr e ↦ rw (same, e) (ap (λ l. a ∷ l) (others-here refs h.1))
      ]

  others-away : (key : ℕ) (refs : List ℕ) → AllOf number key refs → key ≢ p → others refs ≡ refs
  others-away key [] h n = refl
  others-away key (a ∷ refs) h n =
      let other : (number a == p) ≡ false = ≢→== (number a) p (λ f. n (sym h.0 ∙ f)) in
      rw other (ap (λ l. a ∷ l) (others-away key refs h.1 n))

  others-above :
      (q : ℕ) (m : PriorityMap) → Keyed number q m → p < q → others (in_order m) ≡ in_order m
  others-above q [] k l = refl
  others-above q ((key, refs) ∷ m) k l =
      others-append refs (in_order m)
      ∙ ap (λ x. x ++ others (in_order m)) (others-away key refs k.1 (λ e. omega (arith, k.0, e)))
      ∙ ap (λ x. refs ++ x) (others-above (key + 1) m k.2 (omega (arith, k.0)))

  retain-AllOf :
      (key : ℕ) (refs : List ℕ)
      → AllOf number key refs
      → AllOf number key (retain_others entries d refs)
  retain-AllOf key [] h = tt
  retain-AllOf key (a ∷ refs) h = elim (Bool-cases (same_text (entries a).description d)) [
    | inl e ↦ rw e (retain-AllOf key refs h.1)
    | inr e ↦ rw e (h.0, retain-AllOf key refs h.1)
  ]

  Keyed-lower : (q r : ℕ) (m : PriorityMap) → Keyed number r m → q ≤ r → Keyed number q m
  Keyed-lower q r [] k l = tt
  Keyed-lower q r ((key, refs) ∷ m) k l = (omega (arith, k.0), k.1, k.2)

  abbrev Dropped : ℕ → PriorityMap → PriorityMap → Type 0
  Dropped q m l = Keyed number q l × (in_order l ≡ others (in_order m))

  abbrev drop : PriorityMap → PriorityMap
  drop m = drop_described entries d p m

  -- The three places of the priority in the map.
  pub drop-none : (m : PriorityMap) → lookup p m ≡ none → drop m ≡ m
  unfolding drop_described
  drop-none m e = rw (e, drop_described) refl

  -- What is left of the list at the priority goes back into the map.
  abbrev put_back : List ℕ → PriorityMap → PriorityMap
  put_back [] m = remove p m
  put_back (a ∷ refs) m = insert p (a ∷ refs) m

  abbrev dropped : Option (List ℕ) → PriorityMap → PriorityMap
  dropped none m = m
  dropped (some refs) m = put_back (retain_others entries d refs) m

  refilled :
      (l : List ℕ) (m : PriorityMap)
      → elim l [ [] ↦ remove p m | ◌∷◌ a refs ↦ insert p (a ∷ refs) m ] ≡ put_back l m
  refilled [] m = refl
  refilled (a ∷ l) m = refl

  drop-dropped : (m : PriorityMap) → drop m ≡ dropped (lookup p m) m
  unfolding drop_described
  drop-dropped m = elim (Option-cases (lookup p m)) [
    | inl e ↦ rw (e, drop_described) refl
    | inr (refs, e) ↦ rw (e, drop_described) (refilled (retain_others entries d refs) m)
  ]

  remove-past :
      (key : ℕ) (refs : List ℕ) (m : PriorityMap)
      → p ≢ key
      → remove p ((key, refs) ∷ m) ≡ (key, refs) ∷ remove p m
  remove-past key refs m n = ground arith

  put_back-past :
      (l : List ℕ) (key : ℕ) (refs : List ℕ) (m : PriorityMap)
      → ltb p key ≡ false
      → (p == key) ≡ false
      → put_back l ((key, refs) ∷ m) ≡ (key, refs) ∷ put_back l m
  put_back-past [] key refs m e q = remove-past key refs m (==→≢ _ _ q)
  put_back-past (a ∷ l) key refs m e q = insert-past p key (a ∷ l) refs m e q

  dropped-past :
      (x : Option (List ℕ)) (key : ℕ) (refs : List ℕ) (m : PriorityMap)
      → ltb p key ≡ false
      → (p == key) ≡ false
      → dropped x ((key, refs) ∷ m) ≡ (key, refs) ∷ dropped x m
  dropped-past none key refs m e q = refl
  dropped-past (some l) key refs m e q = put_back-past (retain_others entries d l) key refs m e q

  -- The map without the list that stood in front, or with what is left of it.
  abbrev in_front : List ℕ → PriorityMap → PriorityMap
  in_front [] m = m
  in_front (a ∷ l) m = (p, a ∷ l) ∷ m

  put_back-here : (l refs : List ℕ) (m : PriorityMap) → put_back l ((p, refs) ∷ m) ≡ in_front l m
  put_back-here [] refs m = rw (==_refl p) refl
  put_back-here (a ∷ l) refs m =
      insert-here p p (a ∷ l) refs m (le→ltb p p (omega arith)) (==_refl p)

  in_front-Keyed :
      (l : List ℕ) (q : ℕ) (m : PriorityMap)
      → q ≤ p
      → AllOf number p l
      → Keyed number (p + 1) m
      → Keyed number q (in_front l m) × (in_order (in_front l m) ≡ l ++ in_order m)
  in_front-Keyed [] q m h a k = (Keyed-lower q (p + 1) m k (omega arith), refl)
  in_front-Keyed (x ∷ l) q m h a k = ((h, a, k), refl)

  drop-past :
      (key : ℕ) (refs : List ℕ) (m : PriorityMap)
      → ltb p key ≡ false
      → (p == key) ≡ false
      → drop ((key, refs) ∷ m) ≡ (key, refs) ∷ drop m
  drop-past key refs m e q =
      let apart = ==→≢ _ _ q in
      let past : lookup p ((key, refs) ∷ m) ≡ lookup p m = ground (arith, apart) in
      drop-dropped ((key, refs) ∷ m)
      ∙ ap (λ x. dropped x ((key, refs) ∷ m)) past
      ∙ dropped-past (lookup p m) key refs m e q
      ∙ ap (λ x. (key, refs) ∷ x) (sym (drop-dropped m))

  drop-here :
      (q : ℕ) (refs : List ℕ) (m : PriorityMap)
      → Keyed number q ((p, refs) ∷ m)
      → Dropped q ((p, refs) ∷ m) (drop ((p, refs) ∷ m))
  drop-here q refs m k =
      let left = retain_others entries d refs in
      let found : lookup p ((p, refs) ∷ m) ≡ some refs = rw (==_refl p) refl in
      let same =
        drop-dropped ((p, refs) ∷ m)
        ∙ ap (λ x. dropped x ((p, refs) ∷ m)) found
        ∙ put_back-here left refs m in
      let (keyed, order) = in_front-Keyed left q m k.0 (retain-AllOf p refs k.1) k.2 in
      subst (Dropped q ((p, refs) ∷ m)) (sym same) (
        keyed,
        order
            ∙ ap (λ x. x ++ in_order m) (sym (others-here refs k.1))
            ∙ ap (λ x. others refs ++ x) (sym (others-above (p + 1) m k.2 (omega arith)))
            ∙ sym (others-append refs (in_order m)),
      )

  pub drop-Dropped : (q : ℕ) (m : PriorityMap) → Keyed number q m → Dropped q m (drop m)
  drop-Dropped q [] k = subst (Dropped q []) (sym (drop-none [] refl)) (tt, refl)
  drop-Dropped q ((key, refs) ∷ m) k = elim (Bool-cases (ltb p key)) [
    | inl e ↦
        let less = ltb→lt _ _ e in
        let away = lookup-front number p key ((key, refs) ∷ m) (omega arith, k.1, k.2) less in
        subst (Dropped q ((key, refs) ∷ m)) (sym (drop-none ((key, refs) ∷ m) away))
          (k, sym (others-above key ((key, refs) ∷ m) (omega arith, k.1, k.2) less))
    | inr e ↦ elim (Bool-cases (p == key)) [
      | inl s ↦
          subst
            (λ x. Keyed number q ((x, refs) ∷ m) → Dropped q ((x, refs) ∷ m) (drop ((x, refs) ∷ m)))
            (==→≡ _ _ s) (drop-here q refs m) k
      | inr s ↦
          let apart = ==→≢ _ _ s in
          let rest = drop-Dropped (key + 1) m k.2 in
          subst (Dropped q ((key, refs) ∷ m)) (sym (drop-past key refs m e s)) (
            (k.0, k.1, rest.0),
            ap (λ x. refs ++ x) rest.1
                ∙ ap (λ x. x ++ others (in_order m))
                    (sym (others-away key refs k.1 (λ f. apart (sym f))))
                ∙ sym (others-append refs (in_order m)),
          )
    ]
  ]
