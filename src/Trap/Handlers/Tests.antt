-- ===== src/Trap/Handlers/Tests.antt =====
-- A manager with one handler of the timer.
use nt_rustos.Common.{ℕ, ◌+◌, ◌^◌, ◌≡◌, refl, [], ◌∷◌, none, ◌==◌, Bool-cases, inl, inr, arith}
use nt_rustos.Trap.Cause.{TrapType}
use nt_rustos.Trap.Handlers.Registered.{Registration, IsOrdered, register-Registration}
use nt_rustos.Trap.Handlers.{HandlerEntry, HeapHandlerManager, handled, user, dispatch, register}
use nt_rustos.Trap.Handlers.Removal.{Removal}
use nt_rustos.Trap.Handlers.Dispatch.{Run, handlers_of, dispatch-Run}

-- The context is the word in `scause`, and the handler counts it up.
abbrev timer_entry : HandlerEntry ℕ
timer_entry = record {
  handler = λ c. (handled, c + 1);
  priority = 5;
  description = "timer";
  protection_level = user;
  registrar_id = 9;
  context_id = none;
}

abbrev manager : HeapHandlerManager ℕ
manager = record {
  entries = λ x. timer_entry;
  handlers = (0, (5, 1 ∷ []) ∷ []) ∷ [];
  handle_map = (77, 1) ∷ [];
}

timer_is_asked : handlers_of (λ c. c) manager (2 ^ 63 + 5) ≡ 1 ∷ []
unfolding nt_rustos.Trap.Cause.to_trap_type
timer_is_asked = refl

dispatch-Run_example :
    Run manager.entries
      (handlers_of (λ c. c) manager (2 ^ 63 + 5))
      (2 ^ 63 + 5)
      ((dispatch (λ c. c) manager (2 ^ 63 + 5)).0)
      ((dispatch (λ c. c) manager (2 ^ 63 + 5)).1)
dispatch-Run_example = dispatch-Run (λ c. c) manager (2 ^ 63 + 5)

manager-IsOrdered : IsOrdered manager
manager-IsOrdered i = elim (Bool-cases (0 == i)) [
  | inl e ↦ rw e (omega arith, (refl, tt), tt)
  | inr e ↦ rw e tt
]

register-Registration_example :
    Registration
      (λ text t. 78)
      TrapType.timer_interrupt
      2
      manager
      (register (λ text t. 78) TrapType.timer_interrupt 2 manager)
register-Registration_example =
    register-Registration (λ text t. 78) TrapType.timer_interrupt 2 manager manager-IsOrdered
