-- ===== src/Trap/ErrorManager/Handle.antt =====
-- What `handle_error` answers and what it leaves behind.
use nt_rustos.Common.{
  ◌≡◌, refl, ap, ◌∙◌, sym, arith, List, [], ◌∷◌, ◌++◌, Bool, true, false, not, ◌&&◌, ◌||◌,
  if◌then◌else◌, Bool-cases, inl, inr,
}
use nt_rustos.Trap.RingBuffer.Refine.{Holds, enqueue}
use nt_rustos.Trap.RingBuffer.Views.{push-Holds}
use nt_rustos.Trap.Error.{
  ErrorResult, handled, partial, unhandled, SystemError, ErrorLogEntry, is_fatal,
}
use nt_rustos.Trap.ErrorManager.{
  ErrorHandlerEntry, Handlers, HeapErrorManager, Progress, stop, go_on, answer, matches,
  try_entries, try_handlers, result_of, reach, ask, handle_error, log_error, enter_panic_mode,
}
use nt_rustos.Trap.Order.{in_order}

-- What the matching handlers of a list say to an error.
abbrev pub asked : List ErrorHandlerEntry → SystemError → List ErrorResult
asked [] e = []
asked (x ∷ xs) e = if matches x e then x.handler e ∷ asked xs e else asked xs e

abbrev pub is_handled : ErrorResult → Bool
is_handled handled = true
is_handled partial = false
is_handled unhandled = false

abbrev pub is_partial : ErrorResult → Bool
is_partial handled = false
is_partial partial = true
is_partial unhandled = false

abbrev pub any : (ErrorResult → Bool) → List ErrorResult → Bool
any p [] = false
any p (r ∷ rs) = p r || any p rs

-- An error is handled if one handler handles it, and partly handled if none does and one handles a
-- part of it.
abbrev pub verdict : List ErrorResult → ErrorResult → ErrorResult
verdict rs final =
    if any is_handled rs then handled else if any is_partial rs then partial else final

reach_assoc :
    (p : Progress) (k l : ErrorResult → Progress)
    → reach (reach p k) l ≡ reach p (λ f. reach (k f) l)
reach_assoc stop k l = refl
reach_assoc (go_on f) k l = refl

reach_same :
    (p : Progress) (k l : ErrorResult → Progress)
    → ((f : ErrorResult) → k f ≡ l f)
    → reach p k ≡ reach p l
reach_same stop k l h = refl
reach_same (go_on f) k l h = h f

try_entries-append :
    (xs ys : List ErrorHandlerEntry) (e : SystemError) (final : ErrorResult)
    → try_entries (xs ++ ys) e final ≡ reach (try_entries xs e final) (try_entries ys e)
unfolding try_entries
try_entries-append [] ys e final = refl
try_entries-append (x ∷ xs) ys e final =
    reach_same (ask x e final) _ _ (try_entries-append xs ys e)
    ∙ sym (reach_assoc (ask x e final) (try_entries xs e) (try_entries ys e))

-- The two loops are one loop over the handlers in their order.
try_handlers-in_order :
    (m : Handlers) (e : SystemError) (final : ErrorResult)
    → try_handlers m e final ≡ try_entries (in_order m) e final
unfolding try_handlers try_entries
try_handlers-in_order [] e final = refl
try_handlers-in_order ((key, entries) ∷ m) e final =
    reach_same (try_entries entries e final) _ _ (try_handlers-in_order m e)
    ∙ sym (try_entries-append entries (in_order m) e final)

answer-verdict :
    (r : ErrorResult) (rs : List ErrorResult) (k : ErrorResult → Progress) (final : ErrorResult)
    → ((f : ErrorResult) → result_of (k f) ≡ verdict rs f)
    → result_of (reach (answer r final) k) ≡ verdict (r ∷ rs) final
answer-verdict handled rs k final h = refl
answer-verdict partial rs k final h = h partial ∙ ground arith
answer-verdict unhandled rs k final h = h final

try_entries-verdict :
    (xs : List ErrorHandlerEntry) (e : SystemError) (final : ErrorResult)
    → result_of (try_entries xs e final) ≡ verdict (asked xs e) final
unfolding try_entries
try_entries-verdict [] e final = refl
try_entries-verdict (x ∷ xs) e final = elim (Bool-cases (matches x e)) [
  | inl m ↦ rw m (
      answer-verdict (x.handler e) (asked xs e) (try_entries xs e) final (try_entries-verdict xs e))
  | inr m ↦ rw m (try_entries-verdict xs e final)
]

-- What an error leads to: in panic mode an error that is not fatal is not shown to any handler, and
-- any other error is answered by what the matching handlers say, in their order.
abbrev pub expected : SystemError → HeapErrorManager → ErrorResult
expected e m =
    if m.panic_mode && not (is_fatal e.code)
    then unhandled
    else verdict (asked (in_order m.handlers) e) unhandled

asked_all :
    (e : SystemError) (m : Handlers)
    → result_of (try_handlers m e unhandled) ≡ verdict (asked (in_order m) e) unhandled
asked_all e m =
    ap result_of (try_handlers-in_order m e unhandled)
    ∙ try_entries-verdict (in_order m) e unhandled

-- The manager once an error is dealt with.
abbrev after : SystemError → HeapErrorManager → HeapErrorManager
after e m = log_error e (expected e m) (record m { panic_mode = m.panic_mode || is_fatal e.code })

handle_error-after :
    (e : SystemError) (m : HeapErrorManager) → handle_error e m ≡ (expected e m, after e m)
unfolding handle_error log_error enter_panic_mode
handle_error-after e m =
    let said = asked_all e m.handlers in
    elim (Bool-cases m.panic_mode) [
      | inl p ↦ elim (Bool-cases (is_fatal e.code)) [
        | inl f ↦ rw (p, f, said) refl
        | inr f ↦ rw (p, f) refl
      ]
      | inr p ↦ elim (Bool-cases (is_fatal e.code)) [
        | inl f ↦ rw (p, f, said) refl
        | inr f ↦ rw (p, f, said) refl
      ]
    ]

-- `handle_error` answers what the matching handlers say, unless the manager is in panic mode and
-- the error is not fatal; a fatal error starts panic mode, nothing ends it, the handlers stay, and
-- the error is logged with the answer, over the oldest entry if the log is full.
pub handle_error-result :
    (e : SystemError) (m : HeapErrorManager) (q : List ErrorLogEntry)
    → Holds m.log q
    → ((handle_error e m).0 ≡ expected e m)
      × ((handle_error e m).1.panic_mode ≡ m.panic_mode || is_fatal e.code)
      × ((handle_error e m).1.handlers ≡ m.handlers)
      × Holds
          ((handle_error e m).1.log)
          (enqueue m.log.capacity (record { error = e; result = expected e m }) q)
unfolding log_error
handle_error-result e m q h =
    let done = handle_error-after e m in
    rw done (refl, refl, refl, push-Holds (record { error = e; result = expected e m }) m.log q h)
