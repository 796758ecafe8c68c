-- ===== src/Trap/Handlers/Search.antt =====
-- The search of `unregister` for a trap type.
use Prim.Native.String.{String}
use mathlib.Core.Path.{subst}
use nt_rustos.Common.{
  ℕ, ◌+◌, ◌<◌, ◌≡◌, ◌≢◌, refl, ap, sym, ◌∙◌, List, [], ◌∷◌, ◌++◌, arith, ◌==◌, Bool, ◌&&◌, ◌||◌,
  if◌then◌else◌, true, false, Bool-cases, Option-cases, inl, inr, Option, none, some, ==→≡, ==→≢,
  ≢→==, ==_refl,
}
use nt_rustos.Trap.Order.{in_order, AllOf, Keyed}
use nt_rustos.Trap.Handlers.{HandlerEntry, PriorityMap, TrapMap, lookup}
use nt_rustos.Trap.Handlers.Unregister.{same_text, any_described, find_trap_type}

module _ {Context : Type 0} (entries : ℕ → HandlerEntry Context) (d : String) (p : ℕ) where
  abbrev number : ℕ → ℕ
  number a = (entries a).priority

  -- One of the handlers has the description and the priority.
  abbrev pub has_like : List ℕ → Bool
  has_like [] = false
  has_like (a ∷ refs) = number a == p && same_text (entries a).description d || has_like refs

  has_like-append : (xs ys : List ℕ) → has_like (xs ++ ys) ≡ (has_like xs || has_like ys)
  has_like-append [] ys = refl
  has_like-append (x ∷ xs) ys =
      elim (Bool-cases (number x == p && same_text (entries x).description d)) [
        | inl e ↦ rw e refl
        | inr e ↦ rw e (has_like-append xs ys)
      ]

  has_like-here :
      (refs : List ℕ) → AllOf number p refs → has_like refs ≡ any_described entries d refs
  has_like-here [] h = refl
  has_like-here (a ∷ refs) h =
      let same : (number a == p) ≡ true = rw h.0 (==_refl p) in
      rw same (ap (λ b. same_text (entries a).description d || b) (has_like-here refs h.1))

  has_like-away :
      (key : ℕ) (refs : List ℕ) → AllOf number key refs → key ≢ p → has_like refs ≡ false
  has_like-away key [] h n = refl
  has_like-away key (a ∷ refs) h n =
      let other : (number a == p) ≡ false = ≢→== (number a) p (λ f. n (sym h.0 ∙ f)) in
      rw other (has_like-away key refs h.1 n)

  has_like-above :
      (q : ℕ) (m : PriorityMap) → Keyed number q m → p < q → has_like (in_order m) ≡ false
  has_like-above q [] k l = refl
  has_like-above q ((key, refs) ∷ m) k l =
      has_like-append refs (in_order m)
      ∙ ap (λ b. b || has_like (in_order m))
          (has_like-away key refs k.1 (λ e. omega (arith, k.0, e)))
      ∙ has_like-above (key + 1) m k.2 (omega (arith, k.0))

  abbrev found_in : Option (List ℕ) → Bool
  found_in none = false
  found_in (some refs) = any_described entries d refs

  or-false : (b : Bool) → (b || false) ≡ b
  or-false true = refl
  or-false false = refl

  -- The list at the priority is where such a handler stands, if there is one.
  found-has_like :
      (q : ℕ) (m : PriorityMap) → Keyed number q m → found_in (lookup p m) ≡ has_like (in_order m)
  found-has_like q [] k = refl
  found-has_like q ((key, refs) ∷ m) k = elim (Bool-cases (key == p)) [
    | inl e ↦
        let same = ==→≡ _ _ e in
        let all = subst (λ x. AllOf number x refs) same k.1 in
        rw e (
          sym (
            has_like-append refs (in_order m)
            ∙ ap (λ b. b || has_like (in_order m)) (has_like-here refs all)
            ∙ ap (λ b. any_described entries d refs || b)
                (has_like-above (key + 1) m k.2 (omega (arith, same)))
            ∙ or-false (any_described entries d refs)))
    | inr e ↦ rw e (
        found-has_like (key + 1) m k.2
        ∙ sym (
            has_like-append refs (in_order m)
            ∙ ap (λ b. b || has_like (in_order m)) (has_like-away key refs k.1 (==→≢ _ _ e))))
  ]

  -- The first trap type of a map that has such a handler.
  pub data First : TrapMap → Option ℕ → Type 0 where
    nowhere : First [] none
    here :
        (i : ℕ) (l : PriorityMap) (m : TrapMap)
        → has_like (in_order l) ≡ true
        → First ((i, l) ∷ m) (some i)
    further :
        (i : ℕ) (l : PriorityMap) (m : TrapMap) (r : Option ℕ)
        → has_like (in_order l) ≡ false
        → First m r
        → First ((i, l) ∷ m) r

  abbrev pub AllKeyed : TrapMap → Type 0
  AllKeyed [] = Unit {0}
  AllKeyed ((i, l) ∷ m) = Keyed number 0 l × AllKeyed m

  find-found :
      (i : ℕ) (l : PriorityMap) (m : TrapMap)
      → find_trap_type entries d p ((i, l) ∷ m)
        ≡ (if found_in (lookup p l) then some i else find_trap_type entries d p m)
  unfolding find_trap_type
  find-found i l m = elim (Option-cases (lookup p l)) [
    | inl e ↦ rw (e, find_trap_type) refl
    | inr (refs, e) ↦ rw (e, find_trap_type) refl
  ]

  pub find_trap_type-First : (m : TrapMap) → AllKeyed m → First m (find_trap_type entries d p m)
  unfolding find_trap_type
  find_trap_type-First [] h = nowhere
  find_trap_type-First ((i, l) ∷ m) h =
      let same = found-has_like 0 l h.0 in
      subst (First ((i, l) ∷ m)) (sym (find-found i l m))
        (elim (Bool-cases (found_in (lookup p l))) [
          | inl e ↦ rw e (here i l m (sym same ∙ e))
          | inr e ↦ rw e (further i l m _ (sym same ∙ e) (find_trap_type-First m h.1))
        ])
