-- ===== src/Alloc/Lock.antt =====
-- The lock of `ThreadSafeEarlyAllocator` in src/init/alloc/allocator.rs, as the harts of the machine use
-- it. `spin::Mutex` lets one hart in, and keeps every other that asks for it waiting, the holder too.
-- Each method takes the lock at its start and gives it back at its end; once there is an allocator,
-- `prepare_handover` boxes its result with `EarlyBox::new` of src/init/alloc/global.rs before that, which
-- allocates through `safe_alloc` and so asks for the lock again.
pub mod Stuck
mod Tests
use nt_rustos.Common.{ℕ, ◌≡◌, Bool, true, false, ◌==◌, if◌then◌else◌, Option, none, some}

-- Where a hart stands: in no method, before the lock of one, behind it, or in `prepare_handover` before
-- or behind the lock of the allocation for the box.
pub data Place : Type 0 where
  outside : Place
  waiting inside : Bool → Place
  boxing boxed : Place

-- `waiting true` and `inside true` are for `prepare_handover`, with `false` for every other method.
pub record Harts : Type 0 where
  pub initialized : Bool
  pub holder : Option ℕ
  pub place : ℕ → Place

abbrev pub move : ℕ → Place → Harts → Harts
move h p s = record s { place = λ x. if x == h then p else s.place x }

abbrev pub taken_by : ℕ → Harts → Harts
taken_by h s = record s { holder = some h }

abbrev pub released : Harts → Harts
released s = record s { holder = none }

-- One step of one hart.
pub data Step (s : Harts) : Harts → Type 0 where
  call : (h : ℕ) (handover : Bool) → s.place h ≡ outside → Step s (move h (waiting handover) s)
  enter :
      (h : ℕ) (handover : Bool)
      → s.place h ≡ waiting handover
      → s.holder ≡ none
      → Step s (taken_by h (move h (inside handover) s))
  leave : (h : ℕ) → s.place h ≡ inside false → Step s (released (move h outside s))
  set_up : (h : ℕ) → s.place h ≡ inside false → Step s (record s { initialized = true })
  nothing_to_hand_over :
      (h : ℕ)
      → s.place h ≡ inside true
      → s.initialized ≡ false
      → Step s (released (move h outside s))
  box : (h : ℕ) → s.place h ≡ inside true → s.initialized ≡ true → Step s (move h boxing s)
  enter_for_box :
      (h : ℕ) → s.place h ≡ boxing → s.holder ≡ none → Step s (taken_by h (move h boxed s))
  leave_box : (h : ℕ) → s.place h ≡ boxed → Step s (released (move h (inside false) s))

pub data Steps : Harts → Harts → Type 0 where
  done : (s : Harts) → Steps s s
  more : (s t u : Harts) → Step s t → Steps t u → Steps s u

-- No hart in a method.
abbrev pub idle : Bool → Harts
idle on = record { initialized = on; holder = none; place = λ h. outside }
