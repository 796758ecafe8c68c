-- ===== src/Kernel/Boot.antt =====
-- The heap that the kernel sets up for itself.
use nt_rustos.Common.{
  ℕ, ◌+◌, ◌-◌, ◌*◌, ◌/◌, ◌%◌, ◌^◌, ◌≤◌, ◌<◌, ◌≡◌, refl, ◌∙◌, Bool, bit_and, add64, some, [], ◌∷◌,
  arith,
}
use nt_rustos.Common.Bits.{bit_and-round}
use nt_rustos.Alloc.Memory.{Memory}
use nt_rustos.Alloc.Early.{ok, fresh_state}
use nt_rustos.Alloc.Early.Layout.{free_block}
use nt_rustos.Alloc.Early.Invariant.{Inv}
use nt_rustos.Alloc.Service.Start.{waiting_at, opened_at, init_in_range}
use nt_rustos.Kernel.{init_heap}

-- If the kernel ends at an address above 0 and more than 2 MB and 15 bytes below the end of the address
-- space, its first `init` sets up a sound heap of 2 MB, at the first multiple of 16 from there on.
pub init_heap-Inv :
    (m : Memory) (on : Bool) (end : ℕ)
    → 0 < end
    → end + 2097168 ≤ 2 ^ 64
    → (start : ℕ) × (init_heap end (waiting_at m on) ≡ some (ok tt, opened_at m on start 2097152))
      × (start % 16 ≡ 0)
      × (end ≤ start)
      × (start < end + 16)
      × Inv (fresh_state m start 2097152) (free_block 2097104 ∷ [])
unfolding init_heap
init_heap-Inv m on end pos room =
    let start = (end + 15) / 16 * 16 in
    let round : bit_and (add64 end 15) (2 ^ 64 - 1 - 15) ≡ start =
      bit_and-round 16 (add64 end 15) (omega arith) refl (omega arith) (omega arith)
      ∙ omega arith in
    let made =
      init_in_range m on start 2097152 (omega arith) (omega arith) (omega arith) (omega arith)
        (omega arith) in
    (start, rw round made.0, omega arith, omega arith, omega arith, made.1)
