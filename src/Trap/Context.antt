-- ===== src/Trap/Context.antt =====
-- src/trap/ds/context.rs: the saved registers of a trap and of a task.
use nt_rustos.Common.{ℕ, List, replicate, set, add64}

-- The array `x` of 32 registers is a list.
pub record TrapContext : Type 0 where
  pub x : List ℕ
  pub sstatus : ℕ
  pub sepc : ℕ
  pub scause : ℕ
  pub stval : ℕ

unfoldable pub new : TrapContext
new = record { x = replicate 32 0; sstatus = 0; sepc = 0; scause = 0; stval = 0 }

-- `TrapCause::from_bits` keeps the bits.
unfoldable pub cause : TrapContext → ℕ
cause c = c.scause

unfoldable pub advance_sepc : TrapContext → TrapContext
advance_sepc c = record c { sepc = add64 c.sepc 4 }

unfoldable pub set_return_value : ℕ → TrapContext → TrapContext
set_return_value value c = record c { x = set c.x 10 value }

pub record TaskContext : Type 0 where
  pub ra : ℕ
  pub sp : ℕ
  pub s : List ℕ

unfoldable pub new_task : TaskContext
new_task = record { ra = 0; sp = 0; s = replicate 12 0 }

unfoldable pub new_for_task : ℕ → ℕ → TaskContext
new_for_task entry_point stack_top = record { ra = entry_point; sp = stack_top; s = replicate 12 0 }
