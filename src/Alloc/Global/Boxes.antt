-- ===== src/Alloc/Global/Boxes.antt =====
-- `advanced` of src/init/alloc/global.rs: boxes in the early heap. The layout of the type of the value,
-- `Layout::new::<T>()`, is a parameter, and the values that are written through pointers are a function
-- of the address. The destructor of a value is left out, so a value is one that has none.
pub mod Life
mod Tests
use nt_rustos.Common.{ℕ, Bool, true, false, ◌==◌, if◌then◌else◌, Option, none, some}
use nt_rustos.Alloc.Purpose.{AllocPurpose}
use nt_rustos.Alloc.Early.{AllocError, Result, ok, err, ◌>>=◌}
use nt_rustos.Alloc.Guarded.{ThreadSafeEarlyAllocator}
use nt_rustos.Alloc.Global
use nt_rustos.Alloc.Global.{Layout, layout_error}

pub record EarlyBox : Type 0 where
  pub ptr : ℕ

-- The allocator, and the values in the memory of its users.
pub record Store (T : Type 0) : Type 0 where
  pub allocator : ThreadSafeEarlyAllocator
  pub values : ℕ → Option T

unfoldable pub leak : EarlyBox → ℕ
leak b = b.ptr

module _ {T : Type 0} where
  -- `ptr::write`
  abbrev pub write : ℕ → T → Store T → Store T
  write p value st = record st { values = λ q. if q == p then some value else st.values q }

  unfoldable pub set_purpose : AllocPurpose → EarlyBox → Store T → Result (Unit {0}) × Store T
  set_purpose purpose b st =
      let r = Global.set_purpose b.ptr purpose st.allocator in (r.0, record st { allocator = r.1 })

  unfoldable pub deref : EarlyBox → Store T → Option T
  deref b st = st.values b.ptr

  -- An assignment through `deref_mut`.
  unfoldable pub assign : EarlyBox → T → Store T → Store T
  assign b value st = write b.ptr value st

-- `Layout::new::<T>()` of the type whose values are allocated.
module _ {T : Type 0} (layout : Layout) where
  unfoldable pub alloc_type : Store T → Option (Option ℕ × Store T)
  alloc_type st = do
    r ← Global.safe_alloc layout st.allocator
    some (elim r.0 [ ok p ↦ some p | err e ↦ none ], record st { allocator = r.1 })

  unfoldable pub alloc_init : T → Store T → Option (Option ℕ × Store T)
  alloc_init value st = do
    r ← alloc_type st
    some (elim r.0 [ some p ↦ (some p, write p value r.1) | none ↦ (none, r.1) ])

  -- `EarlyBox::new`
  unfoldable pub new : T → Store T → Option (Option EarlyBox × Store T)
  new value st = do
    r ← alloc_init value st
    some (elim r.0 [ some p ↦ some (record { ptr = p }) | none ↦ none ], r.1)

  unfoldable pub drop : EarlyBox → Store T → Option (Store T)
  drop b st = do g ← Global.dealloc b.ptr layout st.allocator; some (record st { allocator = g })
