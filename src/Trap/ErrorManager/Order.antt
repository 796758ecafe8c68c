-- ===== src/Trap/ErrorManager/Order.antt =====
-- The order in which the error handlers are asked.
use nt_rustos.Common.{
  ℕ, ◌+◌, ◌≤◌, ◌≡◌, refl, ap, sym, ◌∙◌, [], ◌∷◌, ◌++◌, append_assoc, arith, ltb, ◌==◌, Bool-cases,
  inl, inr, ltb→lt, ltb→le, ==→≡, ==→≢,
}
use nt_rustos.Trap.ErrorManager.{ErrorHandlerEntry, Handlers, push_entry}
use nt_rustos.Trap.Order.{
  in_order, Keyed, insert_behind, insert_behind-front, insert_behind-pass, AllOf-append,
  lt_of_apart,
}

abbrev pub number : ErrorHandlerEntry → ℕ
number e = e.priority

-- `push_entry` keeps the handlers in the order of their priorities, and those of one priority in
-- the order of their registration: the new one is asked behind all that are there with its priority
-- or a smaller number, and before all the others.
pub push_entry-in_order :
    (e : ErrorHandlerEntry) (p : ℕ) (m : Handlers)
    → Keyed number p m
    → p ≤ e.priority
    → Keyed number p (push_entry e.priority e m)
      × (in_order (push_entry e.priority e m) ≡ insert_behind number e (in_order m))
unfolding push_entry
push_entry-in_order e p [] k h = ((h, (refl, tt), tt), refl)
push_entry-in_order e p ((key, entries) ∷ m) k h = elim (Bool-cases (ltb e.priority key)) [
  | inl l ↦
      let less = ltb→lt _ _ l in
      rw l (
        (h, (refl, tt), (omega arith, k.1, k.2)),
        sym (
            insert_behind-front number e (e.priority + 1) ((key, entries) ∷ m)
              (omega arith, k.1, k.2) (omega arith)),
      )
  | inr g ↦ elim (Bool-cases (e.priority == key)) [
    | inl q ↦
        let same = ==→≡ _ _ q in
        rw (g, q)
          (
            (k.0, AllOf-append number key entries e k.1 same, k.2),
            append_assoc entries (e ∷ []) (in_order m)
                ∙ ap (λ l. entries ++ l)
                    (sym (insert_behind-front number e (key + 1) m k.2 (omega arith)))
                ∙ sym (insert_behind-pass number e key entries (in_order m) k.1 (omega arith)),
          )
    | inr q ↦
        let apart = ==→≢ _ _ q in
        let above = ltb→le _ _ g in
        let more : key + 1 ≤ e.priority = lt_of_apart apart above in
        let rest = push_entry-in_order e (key + 1) m k.2 more in
        rw (g, q)
          (
            (k.0, k.1, rest.0),
            ap (λ l. entries ++ l) rest.1
                ∙ sym (insert_behind-pass number e key entries (in_order m) k.1 above),
          )
  ]
]
