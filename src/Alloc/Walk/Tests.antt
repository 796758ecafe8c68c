-- ===== src/Alloc/Walk/Tests.antt =====
-- The validator at a heap of three blocks.
use nt_rustos.Common.{◌≡◌, refl, some}
use nt_rustos.Common.{arith}
use nt_rustos.Alloc.Early.{ok, integrity_check}
use nt_rustos.Alloc.Early.Integrity.{accepted}
use nt_rustos.Alloc.Early.Sample.{three_blocks, three, three-Inv}
use nt_rustos.Alloc.Walk.{HeapCheck, new_validator, validate_heap}
use nt_rustos.Alloc.Walk.Agreement.{Agrees, validate_heap-Agrees}

validate_heap-Agrees_example :
    (c : HeapCheck) × (validate_heap three_blocks.mem (new_validator 4096 4336) ≡ some c)
    × (integrity_check three_blocks ≡ some (ok tt))
    × Agrees (ok tt) c
validate_heap-Agrees_example =
    validate_heap-Agrees three_blocks three 4336 three-Inv.tiles (omega arith) (omega arith) _
      (accepted refl)
