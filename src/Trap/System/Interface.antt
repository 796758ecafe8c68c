-- ===== src/Trap/System/Interface.antt =====
-- The global instance of the trap system and the functions of src/trap/api.rs on it.
use Prim.Native.String.{String}
use nt_rustos.Common.{ℕ, Bool, true, false, not, if◌then◌else◌, Option, none, some, ◌>>=◌}
use nt_rustos.Trap.Cause.{TrapMode, TrapType}
use nt_rustos.Trap.Context.{TrapContext}
use nt_rustos.Trap.LowLevel
use nt_rustos.Trap.LowLevel.{Registers}
use nt_rustos.Trap.Error.{ErrorSource, ErrorLevel, SystemError, ErrorResult}
use nt_rustos.Trap.ErrorManager
use nt_rustos.Trap.ErrorManager.{HeapErrorManager}
use nt_rustos.Trap.Handlers
use nt_rustos.Trap.Handlers.{HandlerEntry}
use nt_rustos.Trap.Handlers.Unregister
use nt_rustos.Trap.System.{
  Outside, TrapSystem, Instance, handle_trap, new_entry, register_entry, report, fresh_system,
  register_default_enhanced_handlers,
}

pub data TrapApiError : Type 0 where
  system_not_initialized registration_failed unregistration_failed ownership_transfer_failed :
      TrapApiError
  handler_not_found permission_denied internal_error : TrapApiError

pub data ApiResult (A : Type 0) : Type 0 where
  ok : A → ApiResult A
  err : TrapApiError → ApiResult A

-- `Err(())` is mapped to one error of the interface.
abbrev or_error : TrapApiError → Bool → ApiResult (Unit {0})
or_error e b = if b then ok tt else err e

unfoldable pub initialize_trap_system : Outside → TrapMode → Instance → Option Instance
initialize_trap_system out mode g =
    let registers = LowLevel.init_trap_vector out.trap_entry mode g.registers in
    if g.initialized
    then none
    else register_default_enhanced_handlers out fresh_system >>= λ ts.
        some (record { initialized = true; system = some ts; registers = registers })

-- The closure answers and leaves the system; without a system it panics.
unfoldable pub with_trap_system :
    {A : Type 0} → (TrapSystem → A × TrapSystem) → Instance → Option (A × Instance)
with_trap_system f g = elim g.system [
  | none ↦ none
  | some ts ↦ let r = f ts in some (r.0, record g { system = some r.1 })
]

unfoldable pub dispatch_trap : Outside → TrapContext → Instance → Option (TrapContext × Instance)
dispatch_trap out context g = with_trap_system (handle_trap out context) g

unfoldable pub is_initialized : Instance → Bool
is_initialized g = g.initialized

unfoldable pub register_trap_handler :
    Outside → TrapType → HandlerEntry TrapContext → Instance → Option (ApiResult ℕ × Instance)
register_trap_handler out trap_type entry g =
    if not (is_initialized g)
    then some (err system_not_initialized, g)
    else with_trap_system
        (λ ts.
          let made = new_entry entry ts in
          let r = register_entry out trap_type made.0 made.1 in
          (elim r.0 [ none ↦ err registration_failed | some handle ↦ ok handle ], r.1))
        g

unfoldable pub unregister_trap_handler : ℕ → ℕ → Instance → Option (ApiResult (Unit {0}) × Instance)
unregister_trap_handler handle requester_id g =
    if not (is_initialized g)
    then some (err system_not_initialized, g)
    else with_trap_system
        (λ ts.
          let r = Unregister.unregister handle requester_id ts.handler_manager in
          (or_error unregistration_failed r.0, record ts { handler_manager = r.1 }))
        g

unfoldable pub transfer_handler_ownership :
    ℕ → ℕ → ℕ → Instance → Option (ApiResult (Unit {0}) × Instance)
transfer_handler_ownership handle current_owner_id new_owner_id g =
    if not (is_initialized g)
    then some (err system_not_initialized, g)
    else with_trap_system
        (λ ts.
          let r =
            Handlers.transfer_ownership handle current_owner_id new_owner_id ts.handler_manager in
          (or_error ownership_transfer_failed r.0, record ts { handler_manager = r.1 }))
        g

-- `ts.hardware_controller()` writes the registers.
abbrev with_registers : (Registers → Bool × Registers) → Instance → Option (Bool × Instance)
with_registers f g = elim g.system [
  | none ↦ none
  | some ts ↦ let r = f g.registers in some (r.0, record g { registers = r.1 })
]

unfoldable pub enable_interrupts : Instance → Option (Bool × Instance)
enable_interrupts g =
    if not (is_initialized g) then some (false, g) else with_registers LowLevel.enable_interrupts g

unfoldable pub disable_interrupts : Instance → Option (Bool × Instance)
disable_interrupts g =
    if not (is_initialized g) then some (false, g) else with_registers LowLevel.disable_interrupts g

unfoldable pub restore_interrupts : Bool → Instance → Option Instance
restore_interrupts was_enabled g =
    if not (is_initialized g)
    then some g
    else with_registers (λ r. (was_enabled, LowLevel.restore_interrupts was_enabled r)) g >>= λ r.
        some r.1

-- The handler is registered with a manager of its own, which is then dropped.
unfoldable pub register_error_handler :
    ℕ
    → Option ErrorSource
    → Option ErrorLevel
    → (SystemError → ErrorResult)
    → Instance
    → Option (ApiResult (Unit {0}) × Instance)
register_error_handler priority source level handler g =
    if not (is_initialized g)
    then some (err system_not_initialized, g)
    else with_trap_system
        (λ ts.
          let manager_instance =
            ErrorManager.register_handler priority source level handler ErrorManager.new in
          (ok tt, ts))
        g

unfoldable pub report_system_error : SystemError → Instance → Option (ErrorResult × Instance)
report_system_error e g =
    if not (is_initialized g)
    then some (ErrorResult.unhandled, g)
    else with_trap_system (λ ts. ((ErrorManager.handle_error e ts.error_manager).0, report e ts)) g

unfoldable pub create_system_error : ℕ → String → Option ℕ → ℕ → ℕ → SystemError
create_system_error code message address instruction_pointer timestamp = record {
  code = code;
  message = message;
  address = address;
  instruction_pointer = instruction_pointer;
  timestamp = timestamp;
}
