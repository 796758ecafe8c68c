-- ===== src/Trap/System/Tests.antt =====
-- The trap system after its initialisation.
use nt_rustos.Common.{ℕ, ◌≡◌, refl, true, Option, none, some, ◌>>=◌}
use nt_rustos.Trap.Cause.{TrapMode, to_trap_type}
use nt_rustos.Trap.Context
use nt_rustos.Trap.Context.{TrapContext}
use nt_rustos.Trap.Error.{ErrorResult, ErrorLogEntry, ErrorLevel}
use nt_rustos.Trap.System.{
  TrapSystem, Instance, handle_trap, fresh_system, report, trap_error,
  register_default_enhanced_handlers,
}
use nt_rustos.Trap.System.Interface
use nt_rustos.Trap.LowLevel
use nt_rustos.Trap.System.Boot.{initialize-Ready, describe, defaults}
use nt_rustos.Trap.Handlers.Dispatch.{handlers_of}
use nt_rustos.Trap.System.Sample.{out, fault, start, out-HandlesDiffer}
use nt_rustos.Trap.System.Report.{Outcome, handle_trap-Outcome}

handle_trap-Outcome_example :
    Outcome fresh_system fault
      ((handle_trap out fault fresh_system).0)
      ((handle_trap out fault fresh_system).1)
handle_trap-Outcome_example = handle_trap-Outcome out fresh_system fault

-- What the error log holds after the fault.
abbrev logged : Option (TrapContext × Instance) → ℕ
logged none = 0
logged (some (c, g)) = elim g.system [ none ↦ 0 | some ts ↦ ts.error_manager.log.count ]

fault_is_logged :
    logged (
      Interface.initialize_trap_system out TrapMode.direct start >>= λ g.
      Interface.dispatch_trap out fault g)
    ≡ 1
unfolding Interface.initialize_trap_system register_default_enhanced_handlers
    nt_rustos.Trap.Handlers.register Interface.dispatch_trap Interface.with_trap_system handle_trap
    nt_rustos.Trap.Handlers.dispatch nt_rustos.Trap.Cause.to_trap_type Context.cause
    nt_rustos.Trap.ErrorManager.handle_error nt_rustos.Trap.ErrorManager.log_error
    nt_rustos.Trap.RingBuffer.push nt_rustos.Trap.Error.is_fatal nt_rustos.Trap.Error.new
fault_is_logged = refl

initialize-Ready_example :
    (ts : TrapSystem) × (g : Instance) × (Interface.initialize_trap_system out TrapMode.direct start
      ≡ some g)
    × (g.initialized ≡ true)
    × (g.system ≡ some ts)
    × (g.registers ≡ record { stvec = 4096; sstatus = 2 })
    × (handle_trap out fault ts
        ≡ (fault, report (trap_error out ErrorLevel.critical "Unhandled trap" fault) ts))
    × (Interface.initialize_trap_system out TrapMode.direct g ≡ none)
    × ((d : TrapContext)
        → describe ts (handlers_of Context.cause ts.handler_manager d)
          ≡ defaults (to_trap_type (Context.cause d)))
unfolding LowLevel.init_trap_vector
initialize-Ready_example = initialize-Ready out TrapMode.direct start fault refl out-HandlesDiffer
