-- ===== src/Trap/Handlers/Keys.antt =====
-- The pairs of a `BTreeMap`, in the order of the keys.
use Prim.Native.String.{String}
use mathlib.Core.Path.{subst}
use nt_rustos.Common.{
  ℕ, ◌+◌, ◌<◌, ◌≤◌, ◌≡◌, refl, sym, Option-cases, List, [], ◌∷◌, arith, ◌==◌, ltb, Bool-cases, inl,
  inr, none, some, ==→≡, ==→≢, ==_refl, ltb→lt, ltb→le,
}
use nt_rustos.Trap.Order.{lt_of_apart, Keyed}
use nt_rustos.Trap.Cause.{TrapType}
use nt_rustos.Trap.Cause.Decode.{index_of}
use nt_rustos.Trap.Handlers.{
  HandlerEntry, HeapHandlerManager, TrapMap, lookup, insert, or_empty, register,
}
use nt_rustos.Trap.Handlers.Search.{AllKeyed}
use nt_rustos.Trap.Handlers.Unregister.{remove}

-- The keys increase from `q` on.
abbrev pub Ascends : {A : Type 0} → ℕ → List (ℕ × A) → Type 0
Ascends q [] = Unit {0}
Ascends q ((key, a) ∷ m) = (q ≤ key) × Ascends (key + 1) m

module _ {A : Type 0} where
  Ascends-lower : (q r : ℕ) (m : List (ℕ × A)) → Ascends r m → q ≤ r → Ascends q m
  Ascends-lower q r [] h l = tt
  Ascends-lower q r ((key, a) ∷ m) h l = (omega (arith, h.0), h.1)

  lookup-below : (k q : ℕ) (m : List (ℕ × A)) → Ascends q m → k < q → lookup k m ≡ none
  lookup-below k q [] h l = refl
  lookup-below k q ((key, a) ∷ m) h l =
      let rest = lookup-below k (key + 1) m h.1 (omega (arith, h.0)) in
      let apart = h.0 in ground (arith, rest)

  -- The key that is removed is not found again.
  pub lookup-removed : (k q : ℕ) (m : List (ℕ × A)) → Ascends q m → lookup k (remove k m) ≡ none
  lookup-removed k q [] h = refl
  lookup-removed k q ((key, a) ∷ m) h = elim (Bool-cases (key == k)) [
    | inl e ↦ let same = ==→≡ _ _ e in rw e (lookup-below k (key + 1) m h.1 (omega (arith, same)))
    | inr e ↦ rw (e, e) (lookup-removed k (key + 1) m h.1)
  ]

  pub remove-Ascends : (k q : ℕ) (m : List (ℕ × A)) → Ascends q m → Ascends q (remove k m)
  remove-Ascends k q [] h = tt
  remove-Ascends k q ((key, a) ∷ m) h = elim (Bool-cases (key == k)) [
    | inl e ↦ rw e (Ascends-lower q (key + 1) m h.1 (omega (arith, h.0)))
    | inr e ↦ rw e (h.0, remove-Ascends k (key + 1) m h.1)
  ]

  pub insert-Ascends :
      (k q : ℕ) (a : A) (m : List (ℕ × A)) → Ascends q m → q ≤ k → Ascends q (insert k a m)
  insert-Ascends k q a [] h l = (l, tt)
  insert-Ascends k q a ((key, b) ∷ m) h l = elim (Bool-cases (ltb k key)) [
    | inl e ↦ let less = ltb→lt _ _ e in rw e (l, (omega (arith, less), h.1))
    | inr e ↦ elim (Bool-cases (k == key)) [
      | inl s ↦ rw (e, s) (l, Ascends-lower (k + 1) (key + 1) m h.1 (omega (arith, ==→≡ _ _ s)))
      | inr s ↦
          rw (e, s)
            (h.0, insert-Ascends k (key + 1) a m h.1 (lt_of_apart (==→≢ _ _ s) (ltb→le _ _ e)))
    ]
  ]

-- Both maps of a manager are in the order of their keys.
abbrev pub IsMap : {Context : Type 0} → HeapHandlerManager Context → Type 0
IsMap m = Ascends 0 m.handlers × Ascends 0 m.handle_map

-- `register` keeps the maps in the order of their keys.
pub register-IsMap :
    {Context : Type 0} (generate_id : String → TrapType → ℕ) (t : TrapType) (a : ℕ)
    (m : HeapHandlerManager Context)
    → IsMap m
    → IsMap (register generate_id t a m).1
unfolding register
register-IsMap generate_id t a m (h, k) =
    elim (Option-cases (lookup (generate_id (m.entries a).description t) m.handle_map)) [
      | inr (b, e) ↦ rw (e, register) (h, k)
      | inl e ↦
          rw (e, register)
            (
              insert-Ascends (index_of t) 0 _ m.handlers h (omega arith),
              insert-Ascends (generate_id (m.entries a).description t) 0 a m.handle_map k
                  (omega arith),
            )
    ]

-- The lists of a trap type are those at its place.
pub AllKeyed-IsOrdered :
    {Context : Type 0} (entries : ℕ → HandlerEntry Context) (d : String) (p q : ℕ) (m : TrapMap)
    → Ascends q m
    → ((i : ℕ) → Keyed (λ a. (entries a).priority) 0 (or_empty (lookup i m)))
    → AllKeyed entries d p m
AllKeyed-IsOrdered entries d p q [] h k = tt
AllKeyed-IsOrdered entries d p q ((key, l) ∷ m) h k =
    let found : lookup key ((key, l) ∷ m) ≡ some l = rw (==_refl key) refl in
    (
      subst (λ x. Keyed (λ a. (entries a).priority) 0 (or_empty x)) found (k key),
      AllKeyed-IsOrdered entries d p (key + 1) m h.1 (λ i. elim (Bool-cases (key == i)) [
        | inl e ↦
            let same = ==→≡ _ _ e in
            let gone = lookup-below i (key + 1) m h.1 (omega (arith, same)) in
            subst (λ x. Keyed (λ a. (entries a).priority) 0 (or_empty x)) (sym gone) tt
        | inr e ↦
            let past : lookup i ((key, l) ∷ m) ≡ lookup i m = rw e refl in
            subst (λ x. Keyed (λ a. (entries a).priority) 0 (or_empty x)) past (k i)
      ]),
    )
