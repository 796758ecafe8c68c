-- ===== src/Alloc/Service/Takeover/Sample.antt =====
-- A layout for the handover in the tests, of 512 blocks of 48 bytes and the rest, and a lock.
use nt_rustos.Common.{ℕ, zero, suc, ◌≡◌, refl, if◌then◌else◌, true, none}
use nt_rustos.Alloc.Service.Takeover.{Mutex, Outcome, ends, spinning, IsSpinLock}
use nt_rustos.Alloc.Global.{Layout, layout_error}

abbrev pub layout : Layout
layout = record { size = 24832; align = 8 }

pub layout_fine : layout_error layout ≡ none
unfolding layout_error
layout_fine = refl

-- The loop of a spin lock, with a bound for its rounds: the state stays as it is while the only hart waits.
abbrev spin : ℕ → Mutex → Outcome Mutex (Unit {0})
spin zero x = spinning x
spin (suc rounds) x =
    let rest = spin rounds x in if x.locked then rest else ends (record x { locked = true }) tt

abbrev pub lock : Mutex → Outcome Mutex (Unit {0})
lock = spin 4

pub lock-IsSpinLock : IsSpinLock lock
lock-IsSpinLock = record { free_is_taken = λ g. refl; held_is_awaited = λ g. refl }
