-- ===== src/Kernel/Ending.antt =====
-- The end of the kernel: `shutdown`.
use nt_rustos.Common.{ℕ, Bool, ◌≡◌, refl, true, false, Option, none, some}
use nt_rustos.Alloc.Global.{Layout, layout_error}
use nt_rustos.Alloc.Service
use nt_rustos.Alloc.Service.{Service}
use nt_rustos.Alloc.Service.Client.{IsSound, waiting, running}
use nt_rustos.Alloc.Service.Takeover.{Outcome, Mutex, IsSpinLock, ends, spinning}
use nt_rustos.Alloc.Service.Takeover.Hanging.{takeover-Handing, nothing, stuck}
use nt_rustos.Sbi.{Firmware}
use nt_rustos.Sbi.Services
use nt_rustos.Kernel.{shutdown}

-- What `shutdown` comes to: the firmware's shutdown, or a wait with the lock held, the service as it was
-- and the firmware not called.
pub data ShutDown {W : Type 0} (fw : Firmware W) (v : Service) (w : W)
    : Option (Outcome ((Service × Bool) × W) (Unit {0})) → Type 0 where
  reached :
      v.initialized ≡ false → ShutDown fw v w (some (ends ((v, false), Services.shutdown fw w) tt))
  stuck_before : v.initialized ≡ true → ShutDown fw v w (some (spinning ((v, true), w)))

-- If `safe_alloc` admits the layout of the handover, `shutdown` reaches the firmware only if the allocator
-- was never set up. With a sound heap it waits in `prepare_handover` for the lock that its own hart holds,
-- which a spin lock does for ever, with the service as it was, so that the heap is not frozen, and without
-- a call of the firmware.
pub shutdown-ShutDown :
    {W : Type 0} (fw : Firmware W) (lock : Mutex → Outcome Mutex (Unit {0})) (layout : Layout)
    (now : ℕ) (v : Service) (w : W)
    → IsSpinLock lock
    → layout_error layout ≡ none
    → IsSound v
    → ShutDown fw v w (shutdown fw lock layout now v w)
unfolding shutdown Service.is_initialized
shutdown-ShutDown fw lock layout now _ w spin fine (waiting m on) = reached refl
shutdown-ShutDown fw lock layout now _ w spin fine (running on s bs inv) =
    elim (takeover-Handing lock layout now spin fine 0 _ (running on s bs inv)) [
      | nothing i h r c ↦ cc
      | stuck i h r c ↦ rw h (stuck_before refl)
    ]
