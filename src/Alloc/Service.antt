-- ===== src/Alloc/Service.antt =====
-- src/init/alloc/mod.rs: the functions through which the kernel uses the early allocator, with its
-- two flags. Loads and stores of a flag are single steps. Messages are left out.
pub mod Start
pub mod Client
pub mod Calls
pub mod Frozen
pub mod Takeover
mod Tests
use nt_rustos.Common.{
  ℕ, ◌+◌, ◌*◌, ◌^◌, Bool, true, false, not, ◌||◌, ◌==◌, ltb, leb, if◌then◌else◌, bit_and, Option,
  none, some, sub64,
}
use nt_rustos.Alloc.Purpose.{AllocPurpose}
use nt_rustos.Alloc.Stats.{AllocStats}
use nt_rustos.Alloc.Memory.{null}
use nt_rustos.Alloc.Early.{AllocError, Result, ok, err, ◌>>=◌, non_null, is_power_of_two}
use nt_rustos.Alloc.Guarded.{ThreadSafeEarlyAllocator}
use nt_rustos.Alloc.Global
use nt_rustos.Alloc.Global.Bytes.{write_zeros}

pub record Service : Type 0 where
  pub initialized : Bool
  pub enabled : Bool
  pub instance_ : ThreadSafeEarlyAllocator

abbrev pub with_instance : Service → ThreadSafeEarlyAllocator → Service
with_instance v g = record v { instance_ = g }

-- `heap_start.checked_add(heap_size)`
abbrev pub checked_add : ℕ → ℕ → Option ℕ
checked_add a b = if ltb (a + b) (2 ^ 64) then some (a + b) else none

unfoldable pub init : ℕ → ℕ → Service → Option (Result (Unit {0}) × Service)
init heap_start heap_size v =
    let invalid : Option (Result (Unit {0}) × Service) =
      some (err AllocError.invalid_parameter, v) in
    if v.initialized
    then some (err AllocError.already_initialized, v)
    else if heap_start == 0
    then invalid
    else if ltb heap_size (64 * 1024)
    then invalid
    else if ltb (1024 * 1024 * 1024) heap_size
    then invalid
    else if not (bit_and heap_start 0xF == 0)
    then some (err AllocError.invalid_alignment, v)
    else elim (checked_add heap_start heap_size) [
      | none ↦ invalid
      | some heap_end ↦
          if leb heap_end heap_start
          then invalid
          else let r = Global.init heap_start heap_size v.instance_ in
            elim r.0 [
              | ok u ↦ Global.integrity_check r.1 >>= λ c.
                  some (c, record v { initialized = true; instance_ = r.1 })
              | err e ↦ some (err e, with_instance v r.1)
            ]
    ]

unfoldable pub is_initialized : Service → Bool
is_initialized v = v.initialized

unfoldable pub is_enabled : Service → Bool
is_enabled v = v.enabled

unfoldable pub enable : Service → Service
enable v = record v { enabled = true }

unfoldable pub disable : Service → Service
disable v = record v { enabled = false }

unfoldable pub alloc_aligned : ℕ → ℕ → Service → Option (Option ℕ × Service)
alloc_aligned size align v =
    if not (is_initialized v)
    then some (none, v)
    else if not (is_enabled v)
    then some (none, v)
    else if size == 0 || not (is_power_of_two align)
    then some (none, v)
    else Global.alloc_aligned_raw size align v.instance_ >>= λ r. some (r.0, with_instance v r.1)

unfoldable pub alloc : ℕ → Service → Option (Option ℕ × Service)
alloc size v =
    if not (is_initialized v)
    then some (none, v)
    else if not (is_enabled v)
    then some (none, v)
    else if size == 0
    then some (none, v)
    else Global.alloc_aligned_raw size 8 v.instance_ >>= λ r. some (r.0, with_instance v r.1)

-- With the bytes of the users.
unfoldable pub alloc_zeroed : ℕ → Service → (ℕ → ℕ) → Option (Option ℕ × Service × (ℕ → ℕ))
alloc_zeroed size v bytes = do
  r ← alloc size v
  some (elim r.0 [ none ↦ (none, r.1, bytes) | some p ↦ (some p, r.1, write_zeros p size bytes) ])

unfoldable pub dealloc : ℕ → Service → Option Service
dealloc ptr v =
    if not (is_initialized v) then some v else if ptr == null then some v else elim (non_null ptr) [
      | none ↦ some v
      | some p ↦ Global.dealloc_raw p v.instance_ >>= λ r. some (with_instance v r.1)
    ]

unfoldable pub dealloc_safe : ℕ → ℕ → Service → Option (Result (Unit {0}) × Service)
dealloc_safe ptr size v =
    if not (is_initialized v)
    then some (err AllocError.not_initialized, v)
    else if ptr == null
    then some (err AllocError.null_pointer, v)
    else elim (non_null ptr) [
      | none ↦ some (err AllocError.null_pointer, v)
      | some p ↦ Global.dealloc_raw p v.instance_ >>= λ r. some (r.0, with_instance v r.1)
    ]

-- It sets no purpose.
unfoldable pub set_purpose : ℕ → AllocPurpose → Service → Result (Unit {0})
set_purpose ptr purpose v = if not (is_initialized v) then err AllocError.not_initialized else ok tt

unfoldable pub stats : Service → Option AllocStats
stats v = if not (is_initialized v) then none else Global.stats v.instance_

unfoldable pub integrity_check : Service → Option (Result (Unit {0}))
integrity_check v =
    if not (is_initialized v)
    then some (err AllocError.not_initialized)
    else Global.integrity_check v.instance_

unfoldable pub freeze : Service → Result (Unit {0}) × Service
freeze v =
    if not (is_initialized v)
    then (err AllocError.not_initialized, v)
    else let r = Global.freeze v.instance_ in
      elim r.0 [
        | ok u ↦ (ok tt, disable (with_instance v r.1))
        | err e ↦ (err e, with_instance v r.1)
      ]

unfoldable pub usage_summary : Service → Option (ℕ × ℕ × ℕ)
usage_summary v = elim (stats v) [
  | none ↦ none
  | some t ↦ some (t.total_size, t.used_size, t.free_size)
]

-- The report on the health of the heap is left out.
unfoldable pub maintenance : Service → Option (Result (Unit {0}))
maintenance v =
    if not (is_initialized v)
    then some (err AllocError.not_initialized)
    else integrity_check v >>= λ c. some (elim c [ ok u ↦ ok tt | err e ↦ err e ])
