-- ===== src/Trap/Order.antt =====
-- Handlers by priority: the lists of a map from priorities, one after the other. Both managers of
-- src/trap/infrastructure ask their handlers in this order.
use nt_rustos.Common.{
  ℕ, ◌+◌, ◌<◌, ◌≤◌, ◌≡◌, ◌≢◌, refl, ap, List, [], ◌∷◌, ◌++◌, arith, ltb, if◌then◌else◌, true, false,
  lt→ltb, le→ltb,
}

-- All the handlers, in the order in which the loops come to them.
abbrev pub in_order : {E : Type 0} → List (ℕ × List E) → List E
in_order [] = []
in_order ((key, entries) ∷ handlers) = entries ++ in_order handlers

pub lt_of_apart : {n k : ℕ} → n ≢ k → k ≤ n → k + 1 ≤ n
lt_of_apart h l = ground arith

module _ {E : Type 0} (priority : E → ℕ) where
  -- All of one priority.
  abbrev pub AllOf : ℕ → List E → Type 0
  AllOf p [] = Unit {0}
  AllOf p (e ∷ es) = (priority e ≡ p) × AllOf p es

  -- The keys increase from `p` on, and each list has its key's priority.
  abbrev pub Keyed : ℕ → List (ℕ × List E) → Type 0
  Keyed p [] = Unit {0}
  Keyed p ((key, entries) ∷ handlers) = (p ≤ key) × AllOf key entries × Keyed (key + 1) handlers

  -- A new handler comes behind those of its own priority and before those of a larger number.
  abbrev pub insert_behind : E → List E → List E
  insert_behind e [] = e ∷ []
  insert_behind e (x ∷ xs) =
      let rest = insert_behind e xs in
      if ltb (priority e) (priority x) then e ∷ x ∷ xs else x ∷ rest

  pub insert_behind-pass :
      (e : E) (p : ℕ) (xs ys : List E)
      → AllOf p xs
      → p ≤ priority e
      → insert_behind e (xs ++ ys) ≡ xs ++ insert_behind e ys
  insert_behind-pass e p [] ys a h = refl
  insert_behind-pass e p (x ∷ xs) ys a h =
      let over : ltb (priority e) (priority x) ≡ false = le→ltb _ _ (omega (arith, a.0)) in
      rw over (ap (λ l. x ∷ l) (insert_behind-pass e p xs ys a.1 h))

  -- A handler stands before all of larger numbers.
  pub insert_behind-front :
      (e : E) (p : ℕ) (m : List (ℕ × List E))
      → Keyed p m
      → priority e < p
      → insert_behind e (in_order m) ≡ e ∷ in_order m
  insert_behind-front e p [] k h = refl
  insert_behind-front e p ((key, []) ∷ m) k h =
      insert_behind-front e (key + 1) m k.2 (omega (arith, k.0))
  insert_behind-front e p ((key, x ∷ xs) ∷ m) k h =
      let before : ltb (priority e) (priority x) ≡ true = lt→ltb _ _ (omega (arith, k.0, k.1.0)) in
      rw before refl

  pub AllOf-append :
      (p : ℕ) (xs : List E) (e : E) → AllOf p xs → priority e ≡ p → AllOf p (xs ++ e ∷ [])
  AllOf-append p [] e a h = (h, tt)
  AllOf-append p (x ∷ xs) e a h = (a.0, AllOf-append p xs e a.1 h)
