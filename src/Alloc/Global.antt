-- ===== src/Alloc/Global.antt =====
-- src/init/alloc/global.rs: `EarlyGlobalAllocator`, which forwards to the one guarded allocator, and
-- its `GlobalAlloc` interface. A pointer is its address, the null pointer 0; an outer `none` is a
-- loop that has not ended within its fuel. `realloc` tells which copy it makes; the user's bytes stand
-- in Alloc/Global/Bytes.
pub mod Resize
pub mod Boxes
pub mod Bytes
mod Tests
use nt_rustos.Common.{
  ℕ, ◌-◌, ◌^◌, Bool, true, false, not, ◌||◌, min, ◌==◌, ltb, if◌then◌else◌, Option, none, some,
}
use nt_rustos.Alloc.Purpose.{AllocPurpose}
use nt_rustos.Alloc.Stats.{AllocStats}
use nt_rustos.Alloc.Memory.{null}
use nt_rustos.Alloc.Early.{AllocError, Result, ok, err, ◌>>=◌, non_null, is_power_of_two}
use nt_rustos.Alloc.Guarded
use nt_rustos.Alloc.Guarded.{ThreadSafeEarlyAllocator}

-- `core::alloc::Layout`
pub record Layout : Type 0 where
  pub size : ℕ
  pub align : ℕ

-- `Layout::from_size_align`: the alignment is a power of two, and the size, rounded up to it, is at
-- most `isize::MAX`.
unfoldable pub from_size_align : ℕ → ℕ → Option Layout
from_size_align size align =
    if not (is_power_of_two align) || ltb (2 ^ 63 - align) size
    then none
    else some (record { size = size; align = align })

unfoldable pub init :
    ℕ → ℕ → ThreadSafeEarlyAllocator → Result (Unit {0}) × ThreadSafeEarlyAllocator
init heap_start heap_size g = Guarded.init heap_start heap_size g

unfoldable pub set_purpose :
    ℕ → AllocPurpose → ThreadSafeEarlyAllocator → Result (Unit {0}) × ThreadSafeEarlyAllocator
set_purpose ptr purpose g = elim (non_null ptr) [
  | none ↦ (err AllocError.null_pointer, g)
  | some p ↦ Guarded.set_purpose p purpose g
]

unfoldable pub stats : ThreadSafeEarlyAllocator → Option AllocStats
stats g = Guarded.stats g

unfoldable pub freeze : ThreadSafeEarlyAllocator → Result (Unit {0}) × ThreadSafeEarlyAllocator
freeze g = Guarded.freeze g

unfoldable pub integrity_check : ThreadSafeEarlyAllocator → Option (Result (Unit {0}))
integrity_check g = Guarded.integrity_check g

-- Why `safe_alloc` refuses a layout. `isize::MAX as usize` is 2^63 - 1; the difference does not wrap,
-- since the alignment is at most 4096 there.
unfoldable pub layout_error : Layout → Option AllocError
layout_error layout =
    if layout.size == 0
    then some AllocError.invalid_parameter
    else if not (is_power_of_two layout.align) || ltb 4096 layout.align
    then some AllocError.invalid_alignment
    else if ltb (2 ^ 63 - 1 - layout.align) layout.size
    then some AllocError.invalid_parameter
    else none

unfoldable pub safe_alloc :
    Layout → ThreadSafeEarlyAllocator → Option (Result ℕ × ThreadSafeEarlyAllocator)
safe_alloc layout g = elim (layout_error layout) [
  | some e ↦ some (err e, g)
  | none ↦ (do
    r ← Guarded.alloc_aligned layout.size layout.align g
    some (elim r.0 [ some p ↦ ok p | none ↦ err AllocError.out_of_memory ], r.1))
]

unfoldable pub alloc_raw :
    ℕ → ThreadSafeEarlyAllocator → Option (Option ℕ × ThreadSafeEarlyAllocator)
alloc_raw size g = Guarded.alloc size g

unfoldable pub alloc_aligned_raw :
    ℕ → ℕ → ThreadSafeEarlyAllocator → Option (Option ℕ × ThreadSafeEarlyAllocator)
alloc_aligned_raw size align g = Guarded.alloc_aligned size align g

unfoldable pub dealloc_raw :
    ℕ → ThreadSafeEarlyAllocator → Option (Result (Unit {0}) × ThreadSafeEarlyAllocator)
dealloc_raw ptr g = Guarded.dealloc ptr g

unfoldable pub safe_dealloc :
    ℕ → Layout → ThreadSafeEarlyAllocator → Option (Result (Unit {0}) × ThreadSafeEarlyAllocator)
safe_dealloc ptr layout g =
    if ptr == null then some (err AllocError.null_pointer, g) else elim (non_null ptr) [
      | none ↦ some (err AllocError.null_pointer, g)
      | some p ↦ Guarded.dealloc p g
    ]

-- `GlobalAlloc::alloc`
unfoldable pub alloc : Layout → ThreadSafeEarlyAllocator → Option (ℕ × ThreadSafeEarlyAllocator)
alloc layout g = do
  r ← Guarded.alloc_aligned layout.size layout.align g
  some (elim r.0 [ some p ↦ p | none ↦ null ], r.1)

-- `GlobalAlloc::dealloc`: an error is printed.
unfoldable pub dealloc : ℕ → Layout → ThreadSafeEarlyAllocator → Option ThreadSafeEarlyAllocator
dealloc ptr layout g =
    if ptr == null
    then some g
    else elim (non_null ptr) [ none ↦ some g | some p ↦ Guarded.dealloc p g >>= λ r. some r.1 ]

-- `ptr::copy_nonoverlapping`
pub record Copy : Type 0 where
  pub source : ℕ
  pub target : ℕ
  pub count : ℕ

unfoldable pub realloc :
    ℕ → Layout → ℕ → ThreadSafeEarlyAllocator → Option (ℕ × Option Copy × ThreadSafeEarlyAllocator)
realloc ptr layout new_size g =
    if ptr == null
    then (do
      r ← alloc (elim (from_size_align new_size layout.align) [ some l ↦ l | none ↦ layout ]) g
      some (r.0, none, r.1))
    else if new_size == 0
    then (do g ← dealloc ptr layout g; some (null, none, g))
    else elim (from_size_align new_size layout.align) [
      | none ↦ some (null, none, g)
      | some new_layout ↦ (do
        r ← alloc new_layout g
        if r.0 == null then some (null, none, r.1) else (do
          g ← dealloc ptr layout r.1
          some (
            r.0,
            some (record { source = ptr; target = r.0; count = min layout.size new_size }),
            g,
          )))
    ]
