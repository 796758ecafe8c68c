-- ===== src/Alloc/Guarded/Guard.antt =====
-- The guard: nothing works before `init`, and `init` works once.
use nt_rustos.Common.{ℕ, ◌+◌, ◌-◌, ◌^◌, ◌<◌, ◌≤◌, ◌≡◌, refl, [], ◌∷◌, some, none}
use nt_rustos.Alloc.Purpose.{AllocPurpose}
use nt_rustos.Alloc.Memory.{Memory}
use nt_rustos.Alloc.Early.{ok, err, not_initialized, already_initialized, fresh_state}
use nt_rustos.Alloc.Early.Layout.{free_block}
use nt_rustos.Alloc.Early.Invariant.{Inv, new-Inv}
use nt_rustos.Alloc.Guarded.{
  ThreadSafeEarlyAllocator, hold, init, alloc_aligned, dealloc, freeze, integrity_check,
  set_purpose,
}

-- Before `init`.
abbrev pub unset : Memory → ThreadSafeEarlyAllocator
unset m = record { mem = m; allocator = none }

-- Before `init` every request is answered with nothing and every other method with the error for
-- that, and nothing changes.
before_init :
    (m : Memory) (size align user : ℕ) (purpose : AllocPurpose)
    → (alloc_aligned size align (unset m) ≡ some (none, unset m))
      × (dealloc user (unset m) ≡ some (err not_initialized, unset m))
      × (freeze (unset m) ≡ (err not_initialized, unset m))
      × (integrity_check (unset m) ≡ some (err not_initialized))
      × (set_purpose user purpose (unset m) ≡ (err not_initialized, unset m))
unfolding alloc_aligned dealloc freeze integrity_check set_purpose
before_init m size align user purpose = (refl, refl, refl, refl, refl)

-- `init` with a heap that `new` accepts sets up a sound heap, and a second `init`, whatever it asks
-- for, is refused and changes nothing.
pub init_once :
    (m : Memory) (start size start' size' : ℕ)
    → 16 ≤ start
    → 128 ≤ size
    → start + size < 2 ^ 64
    → (init start size (unset m) ≡ (ok tt, hold (fresh_state m start size)))
      × Inv (fresh_state m start size) (free_block (size - 48) ∷ [])
      × (init start' size' (hold (fresh_state m start size))
          ≡ (err already_initialized, hold (fresh_state m start size)))
unfolding init
init_once m start size start' size' h0 h1 h2 =
    let made = new-Inv m start size h0 h1 h2 in (rw (made.0, init) refl, made.1, refl)
