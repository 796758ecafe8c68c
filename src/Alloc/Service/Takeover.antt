-- ===== src/Alloc/Service/Takeover.antt =====
-- The handover in src/init/alloc/mod.rs, and what it calls in allocator.rs and global.rs, with the lock of
-- the allocator on a machine with one hart. `spin::Mutex::lock` is the parameter `lock`; a hart that goes on
-- waiting in it is `spinning`, in the state in which it waits. An outer `none` is a loop that has not ended
-- within its fuel.
pub mod Hanging
pub mod Sample
use nt_rustos.Common.{ℕ, ◌≡◌, Bool, true, false, not, ltb, if◌then◌else◌, Option, none, some}
use nt_rustos.Alloc.Early.{Result, ok, err, AllocError, ◌>>=◌}
use nt_rustos.Alloc.Guarded
use nt_rustos.Alloc.Guarded.{ThreadSafeEarlyAllocator, state_of}
use nt_rustos.Alloc.Global
use nt_rustos.Alloc.Global.{Layout, layout_error}
use nt_rustos.Alloc.Handover
use nt_rustos.Alloc.Handover.{HandoverInfo, valid, invalid, reclaimable_size}
use nt_rustos.Alloc.Health.{MemorySnapshot}
use nt_rustos.Alloc.Service
use nt_rustos.Alloc.Service.{Service, with_instance}

-- A call ends in a state with a value, or its hart waits in a state.
pub data Outcome {ℓ κ} (S : Type ℓ) (A : Type κ) : Type (ℓ ⊔ κ) where
  ends : S → A → Outcome S A
  spinning : S → Outcome S A

infixl 5 ◌>>>=◌
abbrev pub ◌>>>=◌ {ℓ κ μ} :
    {S : Type ℓ} {A : Type κ} {B : Type μ}
    → Option (Outcome S A)
    → (S → A → Option (Outcome S B))
    → Option (Outcome S B)
none >>>= f = none
some (spinning s) >>>= f = some (spinning s)
some (ends s a) >>>= f = f s a

pub record Mutex : Type 0 where
  pub locked : Bool
  pub inner : ThreadSafeEarlyAllocator

abbrev pub unlock : Mutex → Mutex
unlock x = record x { locked = false }

-- A box is its address with what is in it.
abbrev pub Box : Type 0
Box = ℕ × HandoverInfo

-- What `spin::Mutex` documents: a lock that is free is taken, and a lock that is held is waited for until
-- it is given back, which nobody does while the only hart waits.
pub record IsSpinLock (lock : Mutex → Outcome Mutex (Unit {0})) : Type 0 where
  pub free_is_taken :
      (g : ThreadSafeEarlyAllocator)
      → lock (record { locked = false; inner = g }) ≡ ends (record { locked = true; inner = g }) tt
  pub held_is_awaited :
      (g : ThreadSafeEarlyAllocator)
      → lock (record { locked = true; inner = g }) ≡ spinning (record { locked = true; inner = g })

-- `layout` is that of `HandoverInfo`, and `now` the time stamp of the handover.
module _ (lock : Mutex → Outcome Mutex (Unit {0})) (layout : Layout) (now : ℕ) where
  -- `safe_alloc`, with the lock that `ThreadSafeEarlyAllocator::alloc_aligned` takes.
  unfoldable pub locked_alloc : Mutex → Option (Outcome Mutex (Result ℕ))
  locked_alloc x = elim (layout_error layout) [
    | some e ↦ some (ends x (err e))
    | none ↦ some (lock x) >>>= λ x u.
        Guarded.alloc_aligned layout.size layout.align x.inner >>= λ r. some (
          ends (unlock (record x { inner = r.1 }))
            (elim r.0 [ some p ↦ ok p | none ↦ err AllocError.out_of_memory ]))
  ]

  -- `EarlyBox::new`
  unfoldable pub new_box : HandoverInfo → Mutex → Option (Outcome Mutex (Option Box))
  new_box info x =
      locked_alloc x >>>= λ x r. some (ends x (elim r [ ok p ↦ some (p, info) | err e ↦ none ]))

  -- `ThreadSafeEarlyAllocator::prepare_handover`: the box is made while the lock is held.
  unfoldable pub prepare_under_lock : Mutex → Option (Outcome Mutex (Option Box))
  prepare_under_lock x = some (lock x) >>>= λ x u. elim x.inner.allocator [
    | none ↦ some (ends (unlock x) none)
    | some e ↦ Handover.fill_handover now (state_of x.inner e) >>= λ info.
        new_box info x >>>= λ x b. some (ends (unlock x) b)
  ]

  -- The same from the service, whose lock is free before it; the lock then stands beside the service.
  abbrev pub from_service :
      Service → Option (Outcome Mutex (Option Box)) → Option (Outcome (Service × Bool) (Option Box))
  from_service v none = none
  from_service v (some (ends x b)) = some (ends (with_instance v x.inner, x.locked) b)
  from_service v (some (spinning x)) = some (spinning (with_instance v x.inner, x.locked))

  unfoldable pub global_prepare : Service → Option (Outcome (Service × Bool) (Option Box))
  global_prepare v =
      from_service v (prepare_under_lock (record { locked = false; inner = v.instance_ }))

  -- The drop of a box, whose lock is free again.
  unfoldable pub drop_box : Box → Service × Bool → Option (Service × Bool)
  drop_box b s = Global.dealloc b.0 layout s.0.instance_ >>= λ g. some (with_instance s.0 g, s.1)

  -- `prepare_handover`. The report on the health of the heap is left out.
  unfoldable pub prepare_handover : Service → Option (Outcome (Service × Bool) (Option Box))
  prepare_handover v =
      if not (Service.is_initialized v)
      then some (ends (v, false) none)
      else Service.integrity_check v >>= λ c. global_prepare v >>>= λ s b. elim b [
        | none ↦ some (ends s none)
        | some box ↦ elim (Handover.validate box.1) [
          | valid ↦ some (ends s (some box))
          | invalid why ↦ drop_box box s >>= λ s. some (ends s none)
        ]
      ]

  unfoldable pub emergency_reclaim : Service → Option (Outcome (Service × Bool) ℕ)
  emergency_reclaim v =
      if not (Service.is_initialized v)
      then some (ends (v, false) 0)
      else global_prepare v >>>= λ s b. elim b [
        | none ↦ some (ends s 0)
        | some box ↦
            let size = reclaimable_size box.1 in
            drop_box box s >>= λ s. some (ends s (if ltb 0 size then size else 0))
      ]

  -- `stamp` is the time stamp that the snapshot is given.
  unfoldable pub create_snapshot :
      ℕ → Service → Option (Outcome (Service × Bool) (Option MemorySnapshot))
  create_snapshot stamp v =
      if not (Service.is_initialized v)
      then some (ends (v, false) none)
      else elim (Service.stats v) [
        | none ↦ some (ends (v, false) none)
        | some stats ↦ global_prepare v >>>= λ s b. some (
            ends s (elim b [
              | none ↦ none
              | some box ↦
                  some (record { timestamp = stamp; statistics = stats; handover_info = box.1 })
            ]))
      ]
