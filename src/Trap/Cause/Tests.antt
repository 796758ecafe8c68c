-- ===== src/Trap/Cause/Tests.antt =====
-- Words that the hardware may leave in `scause`.
use nt_rustos.Common.{◌≡◌, ◌≢◌, ◌⊎◌, arith}
use nt_rustos.Trap.Cause.{TrapType, to_trap_type}
use nt_rustos.Trap.Cause.Decode.{Trap, word_of, type_of, to_trap_type-known}

to_trap_type-known_example :
    ((t : Trap) × (13 ≡ word_of t) × (to_trap_type 13 ≡ type_of t))
    ⊎ ((t : Trap) → 13 ≢ word_of t) × (to_trap_type 13 ≡ TrapType.unknown)
to_trap_type-known_example = to_trap_type-known 13 (omega arith)
