-- ===== src/Trap/System.antt =====
-- `TrapSystem` of src/trap/infrastructure/di/container.rs, the global instance of
-- src/trap/infrastructure/di/mod.rs and the functions of src/trap/api.rs on it. Each runs under the
-- lock of the instance and is one step. `none` is a panic. What `format!` writes, the hash of a handle
-- and the address of the assembly entry are parameters.
pub mod Interface
pub mod Report
pub mod Boot
pub mod Sample
mod Tests
use Prim.Native.String.{String}
use nt_rustos.Common.{
  ℕ, zero, suc, ◌+◌, ◌%◌, ◌^◌, Bool, true, false, not, ◌==◌, if◌then◌else◌, Option, none, some,
  List, [], ◌∷◌, ◌>>=◌,
}
use nt_rustos.Trap.Cause
use nt_rustos.Trap.Cause.{TrapMode, TrapType}
use nt_rustos.Trap.Context.{TrapContext, cause}
use nt_rustos.Trap.LowLevel
use nt_rustos.Trap.LowLevel.{Registers}
use nt_rustos.Trap.Error
use nt_rustos.Trap.Error.{ErrorSource, ErrorLevel, SystemError, ErrorResult}
use nt_rustos.Trap.ErrorManager
use nt_rustos.Trap.ErrorManager.{HeapErrorManager}
use nt_rustos.Trap.Handlers
use nt_rustos.Trap.Handlers.{
  HeapHandlerManager, HandlerEntry, ProtectionLevel, TrapHandlerResult, TrapError, handled, pass,
  failed, kernel_registrar_id,
}
use nt_rustos.Trap.Handlers.Unregister

pub record Outside : Type 0 where
  pub unhandled_text : TrapContext → String
  pub failed_text : TrapError → TrapContext → String
  pub generate_id : String → TrapType → ℕ
  pub trap_entry : ℕ

-- The container, with the next free reference of the store of handler entries.
pub record TrapSystem : Type 0 where
  pub handler_manager : HeapHandlerManager TrapContext
  pub error_manager : HeapErrorManager
  pub next_entry : ℕ

abbrev pub report : SystemError → TrapSystem → TrapSystem
report e ts = record ts { error_manager = (ErrorManager.handle_error e ts.error_manager).1 }

-- `Arc::new(RwLock::new(entry))`
abbrev pub new_entry : HandlerEntry TrapContext → TrapSystem → ℕ × TrapSystem
new_entry e ts =
    let m = ts.handler_manager in
    let a = ts.next_entry in
    (
      a,
      record ts {
        handler_manager = record m { entries = λ x. if x == a then e else m.entries x };
        next_entry = suc a;
      },
    )

module _ (out : Outside) where
  -- What `handle_trap` reports of a trap.
  abbrev pub trap_error : ErrorLevel → String → TrapContext → SystemError
  trap_error level text c = record {
    code = Error.new ErrorSource.trap level (Cause.code (cause c) % 2 ^ 16);
    message = text;
    address = some c.stval;
    instruction_pointer = c.sepc;
    timestamp = 0;
  }

  unfoldable pub handle_trap : TrapContext → TrapSystem → TrapContext × TrapSystem
  handle_trap context ts =
      let r = Handlers.dispatch cause ts.handler_manager context in
      let c = r.1 in
      elim r.0 [
        | handled ↦ (c, ts)
        | pass ↦ (c, report (trap_error ErrorLevel.critical (out.unhandled_text c) c) ts)
        | failed e ↦ (c, report (trap_error ErrorLevel.error (out.failed_text e c) c) ts)
      ]

  abbrev pub register_entry : TrapType → ℕ → TrapSystem → Option ℕ × TrapSystem
  register_entry tt_ a ts =
      let r = Handlers.register out.generate_id tt_ a ts.handler_manager in
      (r.0, record ts { handler_manager = r.1 })

  -- `.expect(..)`
  abbrev pub expect_entry : TrapType → ℕ → TrapSystem → Option TrapSystem
  expect_entry tt_ a ts =
      let r = register_entry tt_ a ts in elim r.0 [ none ↦ none | some h ↦ some r.1 ]

  abbrev pub default_entry : String → HandlerEntry TrapContext
  default_entry text = record {
    handler = λ c. (pass, c);
    priority = 10;
    description = text;
    protection_level = ProtectionLevel.kernel;
    registrar_id = kernel_registrar_id;
    context_id = none;
  }

  unfoldable pub register_default_enhanced_handlers : TrapSystem → Option TrapSystem
  register_default_enhanced_handlers ts =
      let made = new_entry (default_entry "Default Page Fault Handler") ts in
      let fault = made.0 in
      (do
        ts ← expect_entry TrapType.load_page_fault fault made.1
        ts ← expect_entry TrapType.store_page_fault fault ts
        ts ← expect_entry TrapType.instruction_page_fault fault ts
        let made = new_entry (default_entry "Default Illegal Instruction Handler") ts
        expect_entry TrapType.illegal_instruction made.0 made.1)

-- `INITIALIZED` and `GLOBAL_TRAP_SYSTEM`, and the control registers.
pub record Instance : Type 0 where
  pub initialized : Bool
  pub system : Option TrapSystem
  pub registers : Registers

abbrev pub no_entry : HandlerEntry TrapContext
no_entry = record {
  handler = λ c. (pass, c);
  priority = 0;
  description = "";
  protection_level = ProtectionLevel.user;
  registrar_id = 0;
  context_id = none;
}

-- The system before its handlers are registered: the store of entries holds none yet.
abbrev pub fresh_system : TrapSystem
fresh_system = record {
  handler_manager = record { entries = λ x. no_entry; handlers = []; handle_map = [] };
  error_manager = ErrorManager.new;
  next_entry = 0;
}
