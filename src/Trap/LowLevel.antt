-- ===== src/Trap/LowLevel.antt =====
-- src/trap/infrastructure/low_level.rs: the control registers that the trap system writes. `SIE` is
-- bit 1 of `sstatus`. The address of the assembly entry is a parameter.
use nt_rustos.Common.{ℕ, ◌-◌, ◌^◌, Bool, true, not, ◌==◌, if◌then◌else◌, bit_and, bit_or, refl, ◌≡◌}
use nt_rustos.Trap.Cause.{TrapMode, direct, vectored}

pub record Registers : Type 0 where
  pub stvec : ℕ
  pub sstatus : ℕ

-- `mode as usize`
abbrev pub mode_code : TrapMode → ℕ
mode_code direct = 0
mode_code vectored = 1

abbrev pub sie : ℕ
sie = 2

-- `csrrc` and `csrrci`: the bits of the mask are cleared.
abbrev pub clear_bits : ℕ → Registers → Registers
clear_bits mask r = record r { sstatus = bit_and r.sstatus (2 ^ 64 - 1 - mask) }

-- `csrs`: they are set.
abbrev pub set_bits : ℕ → Registers → Registers
set_bits mask r = record r { sstatus = bit_or r.sstatus mask }

unfoldable pub init_trap_vector : ℕ → TrapMode → Registers → Registers
init_trap_vector trap_entry mode r = record r { stvec = bit_or trap_entry (mode_code mode) }

-- The instruction is `csrrci`.
unfoldable pub enable_interrupts : Registers → Bool × Registers
enable_interrupts r = (not (bit_and r.sstatus sie == 0), clear_bits sie r)

unfoldable pub disable_interrupts : Registers → Bool × Registers
disable_interrupts r = (not (bit_and r.sstatus sie == 0), clear_bits sie r)

unfoldable pub restore_interrupts : Bool → Registers → Registers
restore_interrupts was_enabled r = if was_enabled then set_bits sie r else r

-- With the interrupts off, `enable_interrupts` leaves them off.
enable_interrupts_clears : (enable_interrupts (record { stvec = 0; sstatus = 0 })).1.sstatus ≡ 0
unfolding enable_interrupts
enable_interrupts_clears = refl

restore_interrupts_sets :
    (restore_interrupts true (disable_interrupts (record { stvec = 0; sstatus = 3 })).1).sstatus ≡ 3
unfolding restore_interrupts disable_interrupts
restore_interrupts_sets = refl
