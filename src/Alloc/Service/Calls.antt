-- ===== src/Alloc/Service/Calls.antt =====
-- Sequences of calls of the service.
use nt_rustos.Common.{
  bind_cases, ℕ, ◌+◌, ◌^◌, ◌≤◌, ◌≡◌, inl, inr, refl, Bool, true, false, not, ◌||◌, ◌==◌,
  if◌then◌else◌, List, [], ◌∷◌, Option, none, some, arith, ≢→==,
}
use nt_rustos.Alloc.Memory.{Memory, null}
use nt_rustos.Alloc.Early
use nt_rustos.Alloc.Early.{
  State, EarlyAllocator, Result, ok, err, ◌>>=◌, non_null, is_power_of_two, freeze,
}
use nt_rustos.Alloc.Early.Layout.{Block}
use nt_rustos.Alloc.Early.Invariant.{Inv}
use nt_rustos.Alloc.Early.Sequence.{AtBlock, run_command, request-Sound, give_back-Sound}
use nt_rustos.Alloc.Guarded.{ThreadSafeEarlyAllocator, hold, state_of}
use nt_rustos.Alloc.Global
use nt_rustos.Alloc.Global.{Layout}
use nt_rustos.Alloc.Guarded
use nt_rustos.Alloc.Service
use nt_rustos.Alloc.Service.{Service, with_instance}
use nt_rustos.Alloc.Service.Start.{
  waiting_at, Opened, bad_range, bad_alignment, bad_end, opened, init-Opened,
}
use nt_rustos.Alloc.Service.Client.{
  Call, call, calls, IsSound, Allowed, Careful, open_heap, switch_on, switch_off, stop, get,
  get_aligned, put, put_safe, alloc_layout, dealloc_layout, waiting, running,
}

abbrev pub Ends : Option (Option ℕ × Service) → Type 0
Ends r = (a : Option ℕ) × (v : Service) × (r ≡ some (a, v)) × IsSound v

either :
    {x y : Option (Option ℕ × Service)} (b : Bool) → Ends x → Ends y → Ends (if b then x else y)
either true p q = p
either false p q = q

freeze-Inv : (s : State) (bs : List Block) → Inv s bs → Inv (freeze s) bs
unfolding freeze
freeze-Inv s bs inv = record {
  tiles = inv.tiles;
  chain = inv.chain;
  start_pos = inv.start_pos;
  bounded = inv.bounded;
  counts = inv.counts;
}

module _ (on : Bool) (s : State) (bs : List Block) (inv : Inv s bs) where
  abbrev here : Service
  here = record { initialized = true; enabled = on; instance_ = hold s }

  unchanged : Ends (some (none, here))
  unchanged = (none, here, refl, running on s bs inv)

  raw-Ends :
      (size align : ℕ)
      → s.early.heap_end + align + size + 64 ≤ 2 ^ 64
      → Ends
          (Global.alloc_aligned_raw size align (hold s) >>= λ r. some (r.0, with_instance here r.1))
  unfolding Global.alloc_aligned_raw Guarded.alloc_aligned run_command
  raw-Ends size align h =
      let (t, bs', e, sound) = request-Sound s bs size align inv h in
      let (a, q) = bind_cases (Early.alloc_aligned size align s) t e in
      (a, record here { instance_ = hold t }, rw q refl, running on t bs' sound)

  -- The answer of `dealloc` and the state behind it.
  raw_dealloc :
      (ptr : ℕ)
      → AtBlock s ptr
      → (r : Result (Unit {0})) × (t : State) × (bs' : List Block) × (Global.dealloc_raw ptr
            (hold s)
          ≡ some (r, hold t))
        × Inv t bs'
  unfolding Global.dealloc_raw Guarded.dealloc run_command
  raw_dealloc ptr h =
      let (t, bs', e, sound) = give_back-Sound s bs ptr inv h in
      let (a, q) = bind_cases (Early.dealloc ptr s) t e in (a, t, bs', rw q refl, sound)

  away : (ptr : ℕ) → AtBlock s ptr → (ptr == null) ≡ false
  away ptr (bs, x, t, l, e) = ≢→== ptr 0 (λ z. omega (arith, z, e))

  layout_Ends :
      (layout : Layout)
      → s.early.heap_end + layout.align + layout.size + 64 ≤ 2 ^ 64
      → Ends (Global.alloc layout (hold s) >>= λ r. some (non_null r.0, with_instance here r.1))
  unfolding Global.alloc Guarded.alloc_aligned run_command
  layout_Ends layout h =
      let (t, bs', e, sound) = request-Sound s bs layout.size layout.align inv h in
      let (a, q) = bind_cases (Early.alloc_aligned layout.size layout.align s) t e in
      (
        non_null (elim a [ some p ↦ p | none ↦ null ]),
        record here { instance_ = hold t },
        rw q refl,
        running on t bs' sound,
      )

  -- A call on a service with a sound heap.
  running-Ends : (c : Call) → Allowed here c → Ends (call c here)
  unfolding call Service.init Service.enable Service.disable Service.freeze Global.freeze
      Guarded.freeze Service.alloc Service.alloc_aligned Service.dealloc Service.dealloc_safe
      Service.is_initialized Service.is_enabled Global.dealloc Guarded.dealloc run_command
  running-Ends (open_heap start size) h = unchanged
  running-Ends switch_on h = (none, record here { enabled = true }, refl, running true s bs inv)
  running-Ends switch_off h = (none, record here { enabled = false }, refl, running false s bs inv)
  running-Ends stop h = (
    none,
    record here { enabled = false; instance_ = hold (freeze s) },
    refl,
    running false (freeze s) bs (freeze-Inv s bs inv),
  )
  running-Ends (get size) h =
      either (not on) unchanged (either (size == 0) unchanged (raw-Ends size 8 h))
  running-Ends (get_aligned size align) h =
      either (not on) unchanged
        (either (size == 0 || not (is_power_of_two align)) unchanged (raw-Ends size align h))
  running-Ends (alloc_layout layout) h = layout_Ends layout h
  running-Ends (dealloc_layout ptr layout) h = elim h [
    | inl z ↦ rw z unchanged
    | inr at ↦
        (let (t, bs', e, sound) = give_back-Sound s bs ptr inv at in
          let (a, q) = bind_cases (Early.dealloc ptr s) t e in
          (
            none,
            record here { instance_ = hold t },
            rw (away ptr at, q) refl,
            running on t bs' sound,
          ))
  ]
  running-Ends (put ptr) h = elim h [
    | inl z ↦ rw z unchanged
    | inr at ↦
        (let (r, t, bs', q, sound) = raw_dealloc ptr at in
          (
            none,
            record here { instance_ = hold t },
            rw (away ptr at, q) refl,
            running on t bs' sound,
          ))
  ]
  running-Ends (put_safe ptr) h = elim h [
    | inl z ↦ rw z unchanged
    | inr at ↦
        (let (r, t, bs', q, sound) = raw_dealloc ptr at in
          (
            none,
            record here { instance_ = hold t },
            rw (away ptr at, q) refl,
            running on t bs' sound,
          ))
  ]

-- A call on a service before `init`.
module _ (m : Memory) (on : Bool) where
  abbrev idle : Service
  idle = waiting_at m on

  Opened-IsSound :
      {start size : ℕ} {r : Result (Unit {0})} {v : Service}
      → Opened m on start size r v
      → IsSound v
  Opened-IsSound (bad_range h) = waiting m on
  Opened-IsSound (bad_alignment pos big fit odd) = waiting m on
  Opened-IsSound (bad_end pos big fit even far) = waiting m on
  Opened-IsSound (opened pos big fit even near inv) = running on _ _ inv

  waiting-Ends : (c : Call) → Ends (call c idle)
  unfolding call Service.enable Service.disable Service.freeze Service.alloc Service.alloc_aligned
      Service.dealloc Service.dealloc_safe Service.is_initialized Global.alloc Global.dealloc
      Guarded.alloc_aligned Guarded.dealloc
  waiting-Ends (open_heap start size) =
      let (r, v, e, o) = init-Opened m on start size in (none, v, rw e refl, Opened-IsSound o)
  waiting-Ends switch_on = (none, waiting_at m true, refl, waiting m true)
  waiting-Ends switch_off = (none, waiting_at m false, refl, waiting m false)
  waiting-Ends stop = (none, idle, refl, waiting m on)
  waiting-Ends (get size) = (none, idle, refl, waiting m on)
  waiting-Ends (get_aligned size align) = (none, idle, refl, waiting m on)
  waiting-Ends (put ptr) = (none, idle, refl, waiting m on)
  waiting-Ends (put_safe ptr) = (none, idle, refl, waiting m on)
  waiting-Ends (alloc_layout layout) = (none, idle, refl, waiting m on)
  waiting-Ends (dealloc_layout ptr layout) = (none, idle, ground arith, waiting m on)

pub call-Ends : (v : Service) (c : Call) → IsSound v → Allowed v c → Ends (call c v)
call-Ends _ c (waiting m on) h = waiting-Ends m on c
call-Ends _ c (running on s bs inv) h = running-Ends on s bs inv c h

-- The addresses of a sequence whose first call ends with `a`.
abbrev pub handed : Option ℕ → List ℕ → List ℕ
handed none as_ = as_
handed (some a) as_ = a ∷ as_

pub calls_first :
    (v w z : Service) (c : Call) (cs : List Call) (a : Option ℕ) (as_ : List ℕ)
    → call c v ≡ some (a, w)
    → calls cs w ≡ some (as_, z)
    → calls (c ∷ cs) v ≡ some (handed a as_, z)
unfolding calls
calls_first v w z c cs none as_ e r = rw (e, r) refl
calls_first v w z c cs (some a) as_ e r = rw (e, r) refl

-- Every sequence of calls of a careful client on a sound service ends, and the service is sound after it.
-- A client is careful if, in the state in which it makes a call, a request stays below the end of the
-- address space and an address given back is null or that 48 bytes behind the header of a block; that a
-- call ends is not assumed.
pub calls-IsSound :
    (v : Service) (cs : List Call)
    → IsSound v
    → Careful v cs
    → (as_ : List ℕ) × (w : Service) × (calls cs v ≡ some (as_, w)) × IsSound w
unfolding calls
calls-IsSound v [] sound care = ([], v, refl, sound)
calls-IsSound v (c ∷ cs) sound (h, next) =
    let (a, w, e, good) = call-Ends v c sound h in
    let (more, z, r, q) = calls-IsSound w cs good (next a w e) in
    (handed a more, z, calls_first v w z c cs a more e r, q)
