-- ===== src/Alloc/Service/Takeover/Hanging.antt =====
-- The calls that box a handover never come back once there is a heap.
use nt_rustos.Common.{ℕ, ◌≡◌, refl, List, Bool, true, false, none, some}
use nt_rustos.Alloc.Early.{State}
use nt_rustos.Alloc.Early.Layout.{Block}
use nt_rustos.Alloc.Early.Invariant.{Inv}
use nt_rustos.Alloc.Guarded
use nt_rustos.Alloc.Guarded.{ThreadSafeEarlyAllocator, hold}
use nt_rustos.Alloc.Global
use nt_rustos.Alloc.Global.{Layout, layout_error}
use nt_rustos.Alloc.Handover.{HandoverInfo}
use nt_rustos.Alloc.Handover.Prepare.{fill_handover-ends}
use nt_rustos.Alloc.Service
use nt_rustos.Alloc.Service.{Service}
use nt_rustos.Alloc.Service.Start.{check-hold}
use nt_rustos.Alloc.Service.Client.{IsSound, waiting, running}
use nt_rustos.Alloc.Service.Takeover.{
  Mutex, Outcome, IsSpinLock, ends, spinning, locked_alloc, new_box, prepare_under_lock,
  global_prepare, prepare_handover, emergency_reclaim, create_snapshot,
}

abbrev taken : ThreadSafeEarlyAllocator → Mutex
taken g = record { locked = true; inner = g }

-- What the three calls come to: nothing to hand over, or a
-- wait in a state in which the service is as it was and the lock is held.
pub data Handing (lock : Mutex → Outcome Mutex (Unit {0})) (layout : Layout) (now stamp : ℕ)
    (v : Service) : Type 0 where
  nothing :
      v.initialized ≡ false
      → prepare_handover lock layout now v ≡ some (ends (v, false) none)
      → emergency_reclaim lock layout now v ≡ some (ends (v, false) 0)
      → create_snapshot lock layout now stamp v ≡ some (ends (v, false) none)
      → Handing lock layout now stamp v
  stuck :
      v.initialized ≡ true
      → prepare_handover lock layout now v ≡ some (spinning (v, true))
      → emergency_reclaim lock layout now v ≡ some (spinning (v, true))
      → create_snapshot lock layout now stamp v ≡ some (spinning (v, true))
      → Handing lock layout now stamp v

module _ (lock : Mutex → Outcome Mutex (Unit {0})) (layout : Layout) (now : ℕ)
    (spin : IsSpinLock lock) (fine : layout_error layout ≡ none) where
  locked_alloc-taken :
      (g : ThreadSafeEarlyAllocator)
      → locked_alloc lock layout now (taken g) ≡ some (spinning (taken g))
  unfolding locked_alloc
  locked_alloc-taken g = rw (locked_alloc, fine, spin.held_is_awaited g) refl

  new_box-taken :
      (info : HandoverInfo) (g : ThreadSafeEarlyAllocator)
      → new_box lock layout now info (taken g) ≡ some (spinning (taken g))
  unfolding new_box
  new_box-taken info g = rw (new_box, locked_alloc-taken g) refl

  global_prepare-running :
      (on : Bool) (s : State) (bs : List Block)
      → Inv s bs
      → global_prepare lock layout now
          (record { initialized = true; enabled = on; instance_ = hold s })
        ≡ some (spinning (record { initialized = true; enabled = on; instance_ = hold s }, true))
  unfolding global_prepare prepare_under_lock
  global_prepare-running on s bs inv =
      let (info, e) = fill_handover-ends now s bs inv in
      rw (spin.free_is_taken (hold s), e, new_box-taken info (hold s)) refl

  -- If `safe_alloc` admits the layout of the handover, `prepare_handover`, `emergency_reclaim` and
  -- `create_snapshot` answer that there is nothing before `init`, and on a service with a sound heap each
  -- still waits after any number of rounds, for the lock that its own hart holds; the service is as it
  -- was.
  pub takeover-Handing : (stamp : ℕ) (v : Service) → IsSound v → Handing lock layout now stamp v
  unfolding prepare_handover emergency_reclaim create_snapshot Service.is_initialized
      Service.integrity_check Service.stats Global.stats Guarded.stats
  takeover-Handing stamp _ (waiting m on) = nothing refl refl refl refl
  takeover-Handing stamp _ (running on s bs inv) =
      let held = global_prepare-running on s bs inv in
      stuck refl (rw (check-hold s bs inv, held) refl) (rw held refl) (rw held refl)
