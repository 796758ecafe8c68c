-- ===== src/Trap/Handlers/Registered.antt =====
-- The registration of a trap handler.
use Prim.Native.String.{String}
use mathlib.Core.Path.{subst}
use nt_rustos.Common.{
  ℕ, ◌+◌, ◌<◌, ◌≤◌, ◌≡◌, refl, ap, sym, ◌∙◌, List, [], ◌∷◌, ◌++◌, append_assoc, arith, ltb, ◌==◌,
  if◌then◌else◌, true, false, Bool-cases, Option-cases, inl, inr, Option, none, some, ltb→lt,
  ltb→le, ==→≡, ==→≢,
}
use nt_rustos.Trap.Order.{
  in_order, Keyed, insert_behind, insert_behind-front, insert_behind-pass, AllOf, AllOf-append,
  lt_of_apart,
}
use nt_rustos.Trap.Cause.{TrapType, to_trap_type}
use nt_rustos.Trap.Cause.Decode.{index_of}
use nt_rustos.Trap.Handlers.{HeapHandlerManager, PriorityMap, lookup, insert, or_empty, register}
use nt_rustos.Trap.Handlers.Dispatch.{handlers_of}

pub lookup-insert {ℓ} :
    {A : Type ℓ} (k j : ℕ) (a : A) (m : List (ℕ × A))
    → lookup j (insert k a m) ≡ (if k == j then some a else lookup j m)
lookup-insert k j a [] = refl
lookup-insert k j a ((key, b) ∷ m) = ground (arith, lookup-insert k j a m)

pub asked :
    (x : Option PriorityMap) → in_order (or_empty x) ≡ elim x [ none ↦ [] | some p ↦ in_order p ]
asked none = refl
asked (some p) = refl

pub insert-past :
    {A : Type 0} (k key : ℕ) (x y : A) (m : List (ℕ × A))
    → ltb k key ≡ false
    → (k == key) ≡ false
    → insert k x ((key, y) ∷ m) ≡ (key, y) ∷ insert k x m
insert-past k key x y m e q = rw (e, q) refl

pub insert-here :
    {A : Type 0} (k key : ℕ) (x y : A) (m : List (ℕ × A))
    → ltb k key ≡ false
    → (k == key) ≡ true
    → insert k x ((key, y) ∷ m) ≡ (k, x) ∷ m
insert-here k key x y m e q = rw (e, q) refl

-- The references by the priorities of their entries.
module _ (number : ℕ → ℕ) where
  -- What `register` makes of the lists of a trap type.
  abbrev pub listed : ℕ → PriorityMap → PriorityMap
  listed a m = insert (number a) (or_empty (lookup (number a) m) ++ a ∷ []) m

  pub lookup-front : (k p : ℕ) (m : PriorityMap) → Keyed number p m → k < p → lookup k m ≡ none
  lookup-front k p [] h l = refl
  lookup-front k p ((key, refs) ∷ m) h l =
      let rest = lookup-front k (key + 1) m h.2 (omega (arith, h.0)) in
      let apart = h.0 in ground (arith, rest)

  abbrev Behind : ℕ → ℕ → PriorityMap → PriorityMap → Type 0
  Behind a p m l = Keyed number p l × (in_order l ≡ insert_behind number a (in_order m))

  pub listed-in_order :
      (a p : ℕ) (m : PriorityMap) → Keyed number p m → p ≤ number a → Behind a p m (listed a m)
  listed-in_order a p [] h l = ((l, (refl, tt), tt), refl)
  listed-in_order a p ((key, refs) ∷ m) h l = elim (Bool-cases (ltb (number a) key)) [
    | inl e ↦
        let less = ltb→lt _ _ e in
        let before = lookup-front (number a) key ((key, refs) ∷ m) (omega arith, h.1, h.2) less in
        rw (before, e)
          (
            (l, (refl, tt), (omega arith, h.1, h.2)),
            sym (
                insert_behind-front number a (number a + 1) ((key, refs) ∷ m)
                  (omega arith, h.1, h.2) (omega arith)),
          )
    | inr e ↦ elim (Bool-cases (number a == key)) [
      | inl q ↦
          let same = ==→≡ _ _ q in
          let found : lookup (number a) ((key, refs) ∷ m) ≡ some refs = ground (arith, same) in
          let front : number a < key + 1 = omega (arith, same) in
          let whole =
            insert-here (number a) key (or_empty (lookup (number a) ((key, refs) ∷ m)) ++ a ∷ [])
              refs m e q
            ∙ ap (λ x. (number a, or_empty x ++ a ∷ []) ∷ m) found in
          subst (Behind a p ((key, refs) ∷ m)) (sym whole) (
            (
              l,
              AllOf-append number (number a) refs a
                  (subst (λ k. AllOf number k refs) (sym same) h.1) refl,
              subst (λ k. Keyed number (k + 1) m) (sym same) h.2,
            ),
            append_assoc refs (a ∷ []) (in_order m)
                ∙ ap (λ x. refs ++ x) (sym (insert_behind-front number a (key + 1) m h.2 front))
                ∙ sym (insert_behind-pass number a key refs (in_order m) h.1 (ltb→le _ _ e)),
          )
      | inr q ↦
          let apart = ==→≢ _ _ q in
          let above = ltb→le _ _ e in
          let rest = listed-in_order a (key + 1) m h.2 (lt_of_apart apart above) in
          let past : lookup (number a) ((key, refs) ∷ m) ≡ lookup (number a) m =
            ground (arith, apart) in
          let same =
            insert-past (number a) key (or_empty (lookup (number a) ((key, refs) ∷ m)) ++ a ∷ [])
              refs m e q
            ∙ ap (λ x. (key, refs) ∷ insert (number a) (or_empty x ++ a ∷ []) m) past in
          subst (Behind a p ((key, refs) ∷ m)) (sym same) (
            (h.0, h.1, rest.0),
            ap (λ x. refs ++ x) rest.1
                ∙ sym (insert_behind-pass number a key refs (in_order m) h.1 above),
          )
    ]
  ]

-- The entries that a manager refers to for a trap type.
module _ {Context : Type 0} where
  abbrev pub number_in : HeapHandlerManager Context → ℕ → ℕ
  number_in m a = (m.entries a).priority

  -- The lists of every trap type stand under the priorities of their handlers, in their order.
  abbrev pub IsOrdered : HeapHandlerManager Context → Type 0
  IsOrdered m = (i : ℕ) → Keyed (number_in m) 0 (or_empty (lookup i m.handlers))

module _ {Context : Type 0} (generate_id : String → TrapType → ℕ) where
  abbrev pub handle_of : TrapType → ℕ → HeapHandlerManager Context → ℕ
  handle_of t a m = generate_id ((m.entries a).description) t

  -- What a registration comes to: nothing if the handle is there, else a manager that is as ordered
  -- as before, knows the handle, and asks the new handler for the traps of its type behind all that
  -- have its priority or a smaller number.
  pub data Registration (t : TrapType) (a : ℕ) (m : HeapHandlerManager Context)
      : Option ℕ × HeapHandlerManager Context → Type 0 where
    known : (b : ℕ) → lookup (handle_of t a m) m.handle_map ≡ some b → Registration t a m (none, m)
    added :
        (m' : HeapHandlerManager Context)
        → lookup (handle_of t a m) m.handle_map ≡ none
        → m'.entries ≡ m.entries
        → IsOrdered m'
        → ((h : ℕ)
            → lookup h m'.handle_map
              ≡ (if handle_of t a m == h then some a else lookup h m.handle_map))
        → ((cause : Context → ℕ) (c : Context)
            → handlers_of cause m' c ≡ (
                if index_of t == index_of (to_trap_type (cause c))
                then insert_behind (number_in m) a (handlers_of cause m c)
                else handlers_of cause m c))
        → Registration t a m (some (handle_of t a m), m')

  module _ (t : TrapType) (a : ℕ) (m : HeapHandlerManager Context) (h : IsOrdered m) where
    abbrev lists : PriorityMap
    lists = listed (number_in m) a (or_empty (lookup (index_of t) m.handlers))

    abbrev larger : HeapHandlerManager Context
    larger = record m {
      handlers = insert (index_of t) lists m.handlers;
      handle_map = insert (handle_of t a m) a m.handle_map;
    }

    lists-in_order : Behind (number_in m) a 0 (or_empty (lookup (index_of t) m.handlers)) lists
    lists-in_order = listed-in_order (number_in m) a 0 _ (h (index_of t)) (omega arith)

    larger-IsOrdered : IsOrdered larger
    larger-IsOrdered i =
        rw (lookup-insert (index_of t) i lists m.handlers) (elim (Bool-cases (index_of t == i)) [
          | inl e ↦ rw e lists-in_order.0
          | inr e ↦ rw e (h i)
        ])

    larger-handlers_of :
        (cause : Context → ℕ) (c : Context)
        → handlers_of cause larger c ≡ (
            if index_of t == index_of (to_trap_type (cause c))
            then insert_behind (number_in m) a (handlers_of cause m c)
            else handlers_of cause m c)
    larger-handlers_of cause c =
        let i = index_of (to_trap_type (cause c)) in
        rw (handlers_of, lookup-insert (index_of t) i lists m.handlers)
          (elim (Bool-cases (index_of t == i)) [
            | inl e ↦
                let same = ==→≡ (index_of t) i e in
                rw e (
                  lists-in_order.1
                  ∙ ap (insert_behind (number_in m) a) (
                      ap (λ j. in_order (or_empty (lookup j m.handlers))) same
                      ∙ asked (lookup i m.handlers)))
            | inr e ↦ rw e refl
          ])

    -- On a manager whose handlers stand under their priorities in order, `register` refuses a handle that
    -- is there and changes nothing. Otherwise it answers the handle, which leads to the handler from then
    -- on, the manager is as ordered as before, and a trap of its type is shown to the new handler behind
    -- all that have its priority or a smaller number and before all others; other traps go as before.
    pub register-Registration : Registration t a m (register generate_id t a m)
    unfolding register
    register-Registration = elim (Option-cases (lookup (handle_of t a m) m.handle_map)) [
      | inl e ↦
          rw (e, register)
            (added larger e refl larger-IsOrdered
              (λ k. lookup-insert (handle_of t a m) k a m.handle_map) larger-handlers_of)
      | inr (b, e) ↦ rw (e, register) (known b e)
    ]
