-- ===== src/Alloc/Service/Frozen.antt =====
-- The service after `freeze`.
use nt_rustos.Common.{
  ℕ, ◌≡◌, refl, ◌∙◌, Bool, true, false, not, ◌||◌, ◌==◌, if◌then◌else◌, List, [], ◌∷◌, Option, none,
  some, Bool-cases, inl, inr,
}
use nt_rustos.Alloc.Stats
use nt_rustos.Alloc.Memory.{null}
use nt_rustos.Alloc.Early
use nt_rustos.Alloc.Early.{
  State, AllocError, Result, ok, err, ◌>>=◌, is_power_of_two, on_stats, non_null,
}
use nt_rustos.Alloc.Guarded
use nt_rustos.Alloc.Guarded.{hold}
use nt_rustos.Alloc.Global
use nt_rustos.Alloc.Global.{Layout}
use nt_rustos.Alloc.Service
use nt_rustos.Alloc.Service.{Service, with_instance}
use nt_rustos.Alloc.Service.Calls.{calls_first}
use nt_rustos.Alloc.Service.Client.{
  Call, open_heap, switch_on, switch_off, stop, get, get_aligned, put, put_safe, alloc_layout,
  dealloc_layout, call, calls,
}

-- A frozen heap, whether or not the service is switched on.
pub data IsFrozen : Service → Type 0 where
  frozen :
      (on : Bool) (s : State)
      → s.early.frozen ≡ true
      → IsFrozen (record { initialized = true; enabled = on; instance_ = hold s })

-- A call that hands out nothing, leaves the memory as it is and the heap frozen.
abbrev Idle : Service → Option (Option ℕ × Service) → Type 0
Idle v r = (w : Service) × (r ≡ some (none, w)) × (w.instance_.mem ≡ v.instance_.mem) × IsFrozen w

either :
    (v : Service) {x y : Option (Option ℕ × Service)} (b : Bool)
    → Idle v x
    → Idle v y
    → Idle v (if b then x else y)
either v true p q = p
either v false p q = q

module _ (on : Bool) (s : State) (h : s.early.frozen ≡ true) where
  abbrev here : Service
  here = record { initialized = true; enabled = on; instance_ = hold s }

  unchanged : Idle here (some (none, here))
  unchanged = (here, refl, refl, frozen on s h)

  raw-Idle :
      (size align : ℕ)
      → Idle here
          (Global.alloc_aligned_raw size align (hold s) >>= λ r. some (r.0, with_instance here r.1))
  unfolding Global.alloc_aligned_raw Guarded.alloc_aligned Early.alloc_aligned
  raw-Idle size align = (
    with_instance here (hold (on_stats Stats.record_alloc_failure s)),
    rw h refl,
    refl,
    frozen on (on_stats Stats.record_alloc_failure s) h,
  )

  raw_dealloc :
      (ptr : ℕ) → Global.dealloc_raw ptr (hold s) ≡ some (err AllocError.allocator_frozen, hold s)
  unfolding Global.dealloc_raw Guarded.dealloc Early.dealloc
  raw_dealloc ptr = rw h refl

  layout_alloc :
      (layout : Layout)
      → Idle here
          (Global.alloc layout (hold s) >>= λ r. some (non_null r.0, with_instance here r.1))
  unfolding Global.alloc Guarded.alloc_aligned Early.alloc_aligned
  layout_alloc layout = (
    with_instance here (hold (on_stats Stats.record_alloc_failure s)),
    rw h refl,
    refl,
    frozen on (on_stats Stats.record_alloc_failure s) h,
  )

  layout_dealloc : (ptr : ℕ) (layout : Layout) → Global.dealloc ptr layout (hold s) ≡ some (hold s)
  unfolding Global.dealloc Guarded.dealloc Early.dealloc
  layout_dealloc ptr layout = elim (Bool-cases (ptr == null)) [
    | inl z ↦ rw z refl
    | inr z ↦ rw (z, h) refl
  ]

  call-Idle : (c : Call) → Idle here (call c here)
  unfolding call Service.init Service.enable Service.disable Service.freeze Global.freeze
      Guarded.freeze Service.alloc Service.alloc_aligned Service.dealloc Service.dealloc_safe
      Service.is_initialized Service.is_enabled Early.freeze
  call-Idle (open_heap start size) = unchanged
  call-Idle switch_on = (record here { enabled = true }, refl, refl, frozen true s h)
  call-Idle switch_off = (record here { enabled = false }, refl, refl, frozen false s h)
  call-Idle stop = (
    record here { enabled = false; instance_ = hold (Early.freeze s) },
    refl,
    refl,
    frozen false (Early.freeze s) refl,
  )
  call-Idle (get size) =
      either here (not on) unchanged (either here (size == 0) unchanged (raw-Idle size 8))
  call-Idle (get_aligned size align) =
      either here (not on) unchanged
        (either here (size == 0 || not (is_power_of_two align)) unchanged (raw-Idle size align))
  call-Idle (alloc_layout layout) = layout_alloc layout
  call-Idle (dealloc_layout ptr layout) = rw (layout_dealloc ptr layout) unchanged
  call-Idle (put ptr) = elim (Bool-cases (ptr == null)) [
    | inl z ↦ rw z unchanged
    | inr z ↦ rw (z, raw_dealloc ptr) unchanged
  ]
  call-Idle (put_safe ptr) = elim (Bool-cases (ptr == null)) [
    | inl z ↦ rw z unchanged
    | inr z ↦ rw (z, raw_dealloc ptr) unchanged
  ]

next-Idle : (v : Service) (c : Call) → IsFrozen v → Idle v (call c v)
next-Idle _ c (frozen on s h) = call-Idle on s h c

calls-IsFrozen :
    (v : Service) (cs : List Call)
    → IsFrozen v
    → (w : Service) × (calls cs v ≡ some ([], w)) × (w.instance_.mem ≡ v.instance_.mem) × IsFrozen w
unfolding calls
calls-IsFrozen v [] f = (v, refl, refl, f)
calls-IsFrozen v (c ∷ cs) f =
    let (u, e, same, g) = next-Idle v c f in
    let (w, r, keep, q) = calls-IsFrozen u cs g in
    (w, calls_first v u w c cs none [] e r, keep ∙ same, q)

-- After `freeze` of a service with a heap no sequence of calls, whatever their arguments, hands out an
-- address or changes the headers and the links in memory, and the heap stays frozen.
pub calls-freeze :
    (on : Bool) (s : State) (cs : List Call)
    → (w : Service) × (calls cs
          (Service.freeze (record { initialized = true; enabled = on; instance_ = hold s })).1
        ≡ some ([], w))
      × (w.instance_.mem ≡ s.mem)
      × IsFrozen w
unfolding Service.freeze Global.freeze Guarded.freeze Service.disable Service.is_initialized
    Early.freeze
calls-freeze on s cs = calls-IsFrozen _ cs (frozen false (Early.freeze s) refl)
