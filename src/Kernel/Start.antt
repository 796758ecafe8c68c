-- ===== src/Kernel/Start.antt =====
-- The start of the kernel: `init` of src/lib.rs, and `rust_main` of src/main.rs up to its main loop.
-- What the collections of the trap system and of `test_dynamic_structures` ask of the allocator is a
-- list of calls, those of `GlobalAlloc` among them. The report print_sbi_info only prints. An outer `none` is a loop that has not ended
-- within its fuel.
pub mod Verified
use nt_rustos.Common.{ℕ, Bool, true, false, not, if◌then◌else◌, List, Option, none, some, ◌>>=◌}
use nt_rustos.Alloc.Early.{ok, err}
use nt_rustos.Alloc.Service
use nt_rustos.Alloc.Service.{Service}
use nt_rustos.Alloc.Service.Client.{Call, calls}
use nt_rustos.Trap.Cause.{direct}
use nt_rustos.Trap.LowLevel.{clear_bits, sie}
use nt_rustos.Trap.ErrorManager
use nt_rustos.Trap.System.{Outside, Instance}
use nt_rustos.Trap.System.Interface
use nt_rustos.Kernel.{init_heap}

-- The kernel goes on with its service and its trap system, or waits for interrupts for ever, or panics.
pub data Progress : Type 0 where
  up : Service → Instance → Progress
  halted panicked : Progress

-- `uses` is what the collections of the trap system ask of the heap while that is set up, and `later` is
-- what the test of the dynamic structures asks.
unfoldable pub init : Outside → ℕ → List Call → List Call → Service → Instance → Option Progress
init out heap_start uses later v g = do
  r ← init_heap heap_start v
  elim r.0 [
    | err e ↦ some halted
    | ok u ↦ (do
      q ← calls uses r.1
      elim (Interface.initialize_trap_system out direct g) [
        | none ↦ some panicked
        | some g ↦ calls later q.1 >>= λ q. some (up q.1 g)
      ])
  ]

unfoldable pub verify_system_state_after_init : Service → Instance → Option Progress
verify_system_state_after_init v g =
    if not (Service.is_initialized v)
    then some panicked
    else if not (Interface.is_initialized g)
    then some panicked
    else Service.integrity_check v >>= λ c. some (elim c [ ok u ↦ up v g | err e ↦ panicked ])

unfoldable pub rust_main :
    Outside → ℕ → List Call → List Call → Service → Instance → Option Progress
rust_main out heap_start uses later v g = do
  r ← init out heap_start uses later v g
  elim r [
    | up v g ↦ verify_system_state_after_init v g
    | halted ↦ some halted
    | panicked ↦ some panicked
  ]

-- What the panic handler does before it reports: no interrupt comes any more, and the error manager of
-- the trap system is in its panic mode.
unfoldable pub mask_interrupts : Instance → Instance
mask_interrupts g = record g { registers = clear_bits sie g.registers }

unfoldable pub enter_panic : Instance → Option Instance
enter_panic g =
    if Interface.is_initialized g
    then (do
      r ←
          Interface.with_trap_system
            (λ ts. (
              tt,
              if not ts.error_manager.panic_mode
                  then record ts { error_manager = ErrorManager.enter_panic_mode ts.error_manager }
                  else ts,
            ))
            g
      some r.1)
    else some g
