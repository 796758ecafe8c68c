-- ===== src/Trap/Handlers/Dispatch.antt =====
-- The order of dispatch.
use nt_rustos.Common.{
  ℕ, ◌≡◌, ◌⊎◌, inl, inr, refl, ap, sym, ◌∙◌, List, [], ◌∷◌, ◌++◌, Bool, true, false, some, none,
  Option-cases, if◌then◌else◌,
}
use nt_rustos.Trap.Cause.{to_trap_type}
use nt_rustos.Trap.Cause.Decode.{index_of}
use nt_rustos.Trap.Order.{in_order}
use nt_rustos.Trap.Handlers.{
  HandlerEntry, HeapHandlerManager, PriorityMap, TrapHandlerResult, TrapError, handled, pass,
  failed, lookup, try_list, try_priorities, dispatch,
}

abbrev verdict : Bool → TrapHandlerResult
verdict b = if b then handled else pass

result-cases :
    (r : TrapHandlerResult) → (r ≡ handled) ⊎ (r ≡ pass) ⊎ ((e : TrapError) × (r ≡ failed e))
result-cases handled = inl refl
result-cases pass = inr (inl refl)
result-cases (failed e) = inr (inr (e, refl))

module _ {Context : Type 0} where
  -- A run of the handlers from a context on: those that come before the one that handles the trap
  -- each leave a context to the next; nobody is asked after it.
  pub data Run (entries : ℕ → HandlerEntry Context)
      : List ℕ → Context → TrapHandlerResult → Context → Type 0 where
    nobody : (c : Context) → Run entries [] c pass c
    first :
        (a : ℕ) (rest : List ℕ) (c : Context)
        → ((entries a).handler c).0 ≡ handled
        → Run entries (a ∷ rest) c handled (((entries a).handler c).1)
    later :
        (a : ℕ) (rest : List ℕ) (c d : Context) (r : TrapHandlerResult)
        → (((entries a).handler c).0 ≡ pass)
          ⊎ ((e : TrapError) × (((entries a).handler c).0 ≡ failed e))
        → Run entries rest (((entries a).handler c).1) r d
        → Run entries (a ∷ rest) c r d

  -- The two loops are one loop over the handlers in turn.
  abbrev go_on : Bool × Context → (Context → Bool × Context) → Bool × Context
  go_on r next = if r.0 then r else next r.1

  go_on_same :
      (r : Bool × Context) (f g : Context → Bool × Context)
      → ((c : Context) → f c ≡ g c)
      → go_on r f ≡ go_on r g
  go_on_same (true, c) f g h = refl
  go_on_same (false, c) f g h = h c

  try_handled :
      (entries : ℕ → HandlerEntry Context) (x : ℕ) (xs : List ℕ) (c : Context)
      → ((entries x).handler c).0 ≡ handled
      → try_list entries (x ∷ xs) c ≡ (true, ((entries x).handler c).1)
  unfolding try_list
  try_handled entries x xs c h = rw (h, try_list) refl

  try_next :
      (entries : ℕ → HandlerEntry Context) (x : ℕ) (xs : List ℕ) (c : Context)
      → (((entries x).handler c).0 ≡ pass)
        ⊎ ((e : TrapError) × (((entries x).handler c).0 ≡ failed e))
      → try_list entries (x ∷ xs) c ≡ try_list entries xs (((entries x).handler c).1)
  unfolding try_list
  try_next entries x xs c (inl p) = rw (p, try_list) refl
  try_next entries x xs c (inr f) = rw (f.1, try_list) refl

  try_list-append :
      (entries : ℕ → HandlerEntry Context) (xs ys : List ℕ) (c : Context)
      → try_list entries (xs ++ ys) c ≡ go_on (try_list entries xs c) (try_list entries ys)
  unfolding try_list
  try_list-append entries [] ys c = refl
  try_list-append entries (x ∷ xs) ys c = elim (result-cases ((entries x).handler c).0) [
    | inl h ↦
        try_handled entries x (xs ++ ys) c h
        ∙ ap (λ r. go_on r (try_list entries ys)) (sym (try_handled entries x xs c h))
    | inr n ↦
        try_next entries x (xs ++ ys) c n
        ∙ try_list-append entries xs ys ((entries x).handler c).1
        ∙ ap (λ r. go_on r (try_list entries ys)) (sym (try_next entries x xs c n))
  ]

  try_list-Run :
      (entries : ℕ → HandlerEntry Context) (xs : List ℕ) (c : Context)
      → Run entries xs c (verdict (try_list entries xs c).0) ((try_list entries xs c).1)
  unfolding try_list
  try_list-Run entries [] c = nobody c
  try_list-Run entries (x ∷ xs) c = elim (result-cases ((entries x).handler c).0) [
    | inl h ↦ rw (try_handled entries x xs c h) (first x xs c h)
    | inr n ↦ rw (try_next entries x xs c n) (later x xs c _ _ n (try_list-Run entries xs _))
  ]

  try_priorities-in_order :
      (entries : ℕ → HandlerEntry Context) (m : PriorityMap) (c : Context)
      → try_priorities entries m c ≡ try_list entries (in_order m) c
  unfolding try_priorities try_list
  try_priorities-in_order entries [] c = refl
  try_priorities-in_order entries ((p, refs) ∷ m) c =
      go_on_same (try_list entries refs c) _ _ (try_priorities-in_order entries m)
      ∙ sym (try_list-append entries refs (in_order m) c)

  -- The handlers of the trap that a context is about, in turn.
  abbrev pub handlers_of : (Context → ℕ) → HeapHandlerManager Context → Context → List ℕ
  handlers_of cause m c = elim (lookup (index_of (to_trap_type (cause c))) m.handlers) [
    | none ↦ []
    | some priority_map ↦ in_order priority_map
  ]

  -- `dispatch` asks the handlers of the trap's type in the order of their priorities until one
  -- handles the trap; a handler that passes or fails leaves its context to the next, and if none
  -- handles it the trap is passed on.
  pub dispatch-Run :
      (cause : Context → ℕ) (m : HeapHandlerManager Context) (c : Context)
      → Run m.entries (handlers_of cause m c) c ((dispatch cause m c).0) ((dispatch cause m c).1)
  unfolding dispatch
  dispatch-Run cause m c =
      elim (Option-cases (lookup (index_of (to_trap_type (cause c))) m.handlers)) [
        | inl n ↦ rw (n, dispatch, handlers_of) (nobody c)
        | inr (p, s) ↦
            rw (s, dispatch, handlers_of, try_priorities-in_order m.entries p c)
              (try_list-Run m.entries (in_order p) c)
      ]
