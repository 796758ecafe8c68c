-- ===== src/Trap/System/Report.antt =====
-- What becomes of a trap.
use mathlib.Core.Path.{subst}
use nt_rustos.Common.{ℕ, ◌%◌, ◌^◌, ◌≡◌, refl, ◌⊎◌, inl, inr, false, some, List, arith}
use nt_rustos.Trap.Cause
use nt_rustos.Trap.Context.{TrapContext, cause}
use nt_rustos.Trap.Error
use nt_rustos.Trap.Error.{ErrorSource, ErrorLevel, SystemError}
use nt_rustos.Trap.Error.RoundTrip.{new_round_trip}
use nt_rustos.Trap.Handlers.{HandlerEntry, TrapHandlerResult, handled, pass, dispatch}
use nt_rustos.Trap.Handlers.Dispatch.{Run, nobody, first, later, handlers_of, dispatch-Run}
use nt_rustos.Trap.System.{Outside, TrapSystem, trap_error, report, handle_trap}

-- The error that tells of a trap which nobody handled, by the context that the handlers left.
pub record IsReport (e : SystemError) (c : TrapContext) : Type 0 where
  pub of_trap : Error.source e.code ≡ ErrorSource.trap
  pub grave : Error.level e.code ≡ ErrorLevel.critical
  pub numbered : Error.number e.code ≡ Cause.code c.scause % 2 ^ 16
  pub survivable : Error.is_fatal e.code ≡ false
  pub at_address : e.address ≡ some c.stval
  pub at_instruction : e.instruction_pointer ≡ c.sepc

-- The context and the system after a trap with the context `c`.
pub data Outcome (ts : TrapSystem) (c : TrapContext) : TrapContext → TrapSystem → Type 0 where
  settled :
      (d : TrapContext)
      → Run ts.handler_manager.entries (handlers_of cause ts.handler_manager c) c handled d
      → Outcome ts c d ts
  reported :
      (d : TrapContext) (e : SystemError)
      → Run ts.handler_manager.entries (handlers_of cause ts.handler_manager c) c pass d
      → IsReport e d
      → Outcome ts c d (report e ts)

-- A run ends with a handler that handles the trap, or with none.
Run-cases :
    {Context : Type 0} (entries : ℕ → HandlerEntry Context) (refs : List ℕ) (c d : Context)
    (r : TrapHandlerResult)
    → Run entries refs c r d
    → (r ≡ handled) ⊎ (r ≡ pass)
Run-cases entries _ c _ _ (nobody _) = inr refl
Run-cases entries _ c _ _ (first a rest _ h) = inl refl
Run-cases entries _ c _ _ (later a rest _ d r h next) = Run-cases entries rest _ d r next

trap_error-IsReport :
    (out : Outside) (c : TrapContext)
    → IsReport (trap_error out ErrorLevel.critical (out.unhandled_text c) c) c
unfolding cause
trap_error-IsReport out c =
    let parts =
      new_round_trip ErrorSource.trap ErrorLevel.critical (Cause.code c.scause % 2 ^ 16)
        (omega arith) in
    record {
      of_trap = parts.0;
      grave = parts.1;
      numbered = parts.2;
      survivable = parts.3;
      at_address = refl;
      at_instruction = refl;
    }

-- `handle_trap` asks the handlers of the trap in their order. If one handles it, nothing else
-- happens; if none does, the error manager is given one critical error of the source `trap`, with the
-- low 16 bits of the cause and the addresses of the context that the handlers left.
pub handle_trap-Outcome :
    (out : Outside) (ts : TrapSystem) (c : TrapContext)
    → Outcome ts c ((handle_trap out c ts).0) ((handle_trap out c ts).1)
unfolding handle_trap
handle_trap-Outcome out ts c =
    let ran = dispatch-Run cause ts.handler_manager c in
    let d = (dispatch cause ts.handler_manager c).1 in
    elim (Run-cases _ _ _ _ _ ran) [
      | inl h ↦
          rw (h, handle_trap)
            (settled d (
              subst
                (λ r. Run ts.handler_manager.entries (handlers_of cause ts.handler_manager c) c r d)
                h ran))
      | inr h ↦
          rw (h, handle_trap)
            (reported d _
              (subst
                (λ r. Run ts.handler_manager.entries (handlers_of cause ts.handler_manager c) c r d)
                h ran)
              (trap_error-IsReport out d))
    ]
