-- ===== src/Trap/System/Sample.antt =====
-- A trap, and what the trap system is given in the tests.
use nt_rustos.Common.{false, none, [], arith}
use nt_rustos.Trap.Cause.Decode.{index_of}
use nt_rustos.Trap.Context.{TrapContext}
use nt_rustos.Trap.System.{Outside, Instance}
use nt_rustos.Trap.System.Boot.{HandlesDiffer}

-- The hash is the place of the trap type.
abbrev pub out : Outside
out = record {
  unhandled_text = λ c. "Unhandled trap";
  failed_text = λ e c. "Trap handler failed";
  generate_id = λ d t. index_of t;
  trap_entry = 4096;
}

-- A load page fault.
abbrev pub fault : TrapContext
fault = record { x = []; sstatus = 0; sepc = 8192; scause = 13; stval = 12288 }

abbrev pub start : Instance
start = record { initialized = false; system = none; registers = record { stvec = 0; sstatus = 2 } }

pub out-HandlesDiffer : HandlesDiffer out
unfolding index_of
out-HandlesDiffer = omega arith
