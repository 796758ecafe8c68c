-- ===== src/Alloc/Guarded.antt =====
-- `ThreadSafeEarlyAllocator` of src/init/alloc/allocator.rs: the early allocator behind a lock that
-- each method takes and gives back. An outer `none` is a loop that has not ended within its fuel.
pub mod Guard
mod Tests
use nt_rustos.Common.{ℕ, Option, none, some}
use nt_rustos.Alloc.Purpose.{AllocPurpose}
use nt_rustos.Alloc.Stats.{AllocStats}
use nt_rustos.Alloc.Memory.{Memory}
use nt_rustos.Alloc.Early
use nt_rustos.Alloc.Early.{
  State, EarlyAllocator, AllocError, Result, ok, err, not_initialized, already_initialized, ◌>>=◌,
}

pub record ThreadSafeEarlyAllocator : Type 0 where
  pub mem : Memory
  pub allocator : Option EarlyAllocator

-- The lock's contents after a method.
abbrev pub hold : State → ThreadSafeEarlyAllocator
hold s = record { mem = s.mem; allocator = some s.early }

abbrev pub state_of : ThreadSafeEarlyAllocator → EarlyAllocator → State
state_of g e = record { mem = g.mem; early = e }

unfoldable pub init :
    ℕ → ℕ → ThreadSafeEarlyAllocator → Result (Unit {0}) × ThreadSafeEarlyAllocator
init heap_start heap_size g = elim g.allocator [
  | some e ↦ (err already_initialized, g)
  | none ↦ elim (Early.new g.mem heap_start heap_size) [
    | ok s ↦ (ok tt, hold s)
    | err e ↦ (err e, g)
  ]
]

unfoldable pub alloc_aligned :
    ℕ → ℕ → ThreadSafeEarlyAllocator → Option (Option ℕ × ThreadSafeEarlyAllocator)
alloc_aligned size align g = elim g.allocator [
  | none ↦ some (none, g)
  | some e ↦ Early.alloc_aligned size align (state_of g e) >>= λ r. some (r.0, hold r.1)
]

unfoldable pub alloc : ℕ → ThreadSafeEarlyAllocator → Option (Option ℕ × ThreadSafeEarlyAllocator)
alloc size g = elim g.allocator [
  | none ↦ some (none, g)
  | some e ↦ Early.alloc size (state_of g e) >>= λ r. some (r.0, hold r.1)
]

unfoldable pub stats : ThreadSafeEarlyAllocator → Option AllocStats
stats g = elim g.allocator [ none ↦ none | some e ↦ some e.stats ]

unfoldable pub dealloc :
    ℕ → ThreadSafeEarlyAllocator → Option (Result (Unit {0}) × ThreadSafeEarlyAllocator)
dealloc user g = elim g.allocator [
  | none ↦ some (err not_initialized, g)
  | some e ↦ Early.dealloc user (state_of g e) >>= λ r. some (r.0, hold r.1)
]

unfoldable pub freeze : ThreadSafeEarlyAllocator → Result (Unit {0}) × ThreadSafeEarlyAllocator
freeze g = elim g.allocator [
  | none ↦ (err not_initialized, g)
  | some e ↦ (ok tt, hold (Early.freeze (state_of g e)))
]

unfoldable pub integrity_check : ThreadSafeEarlyAllocator → Option (Result (Unit {0}))
integrity_check g = elim g.allocator [
  | none ↦ some (err not_initialized)
  | some e ↦ Early.integrity_check (state_of g e)
]

unfoldable pub set_purpose :
    ℕ → AllocPurpose → ThreadSafeEarlyAllocator → Result (Unit {0}) × ThreadSafeEarlyAllocator
set_purpose user purpose g = elim g.allocator [
  | none ↦ (err not_initialized, g)
  | some e ↦ let r = Early.set_purpose user purpose (state_of g e) in (r.0, hold r.1)
]
