-- ===== src/Alloc/Global/Resize.antt =====
-- `realloc` of a block of a sound heap.
use nt_rustos.Common.{ℕ, ◌≡◌, ◌≢◌, ◌⊎◌, min, false, Option, none, some, List}
use nt_rustos.Alloc.Early
use nt_rustos.Alloc.Early.{State, ok, non_null}
use nt_rustos.Alloc.Early.Layout.{Block}
use nt_rustos.Alloc.Early.Invariant.{Inv}
use nt_rustos.Alloc.Early.InUse.{InUse}
use nt_rustos.Alloc.Guarded
use nt_rustos.Alloc.Guarded.{ThreadSafeEarlyAllocator, hold}
use nt_rustos.Alloc.Global
use nt_rustos.Alloc.Global.{Layout, Copy}

-- The answer of `realloc` from a heap, the copy that it makes and the heap that it leaves: null and none;
-- or the new address, a copy of as many bytes as the smaller of the two sizes, and the heap once the new
-- block has been taken and the old one has been given back.
pub data Resized (s : State) (ptr : ℕ) (layout : Layout) (new_size : ℕ)
    : ℕ → Option Copy → State → Type 0 where
  refused : (t : State) → Resized s ptr layout new_size 0 none t
  moved :
      (target : ℕ) (t u : State)
      → target ≢ 0
      → Early.alloc_aligned new_size layout.align s ≡ some (some target, t)
      → Early.dealloc ptr t ≡ some (ok tt, u)
      → Resized s ptr layout new_size target
          (some (record { source = ptr; target = target; count = min layout.size new_size }))
          u

-- The block of an address in use is given back.
module _ (s : State) (bs : List Block) (ptr : ℕ) (inv : Inv s bs)
    (there : InUse s.early.heap_start bs ptr) where
  abbrev Released : State → List Block → Type 0
  Released t bs' = (Early.dealloc ptr s ≡ some (ok tt, t)) × Inv t bs'

-- A request ends with null, or with an address and the old block still in use.
module _ (s : State) (bs : List Block) (ptr : ℕ) (inv : Inv s bs)
    (there : InUse s.early.heap_start bs ptr) where
  abbrev Answer : Layout → Type 0
  Answer layout =
      (p : ℕ) × (t : State) × (bs' : List Block) × (Global.alloc layout (hold s) ≡ some (p, hold t))
      × Inv t bs'
      × ((p ≡ 0)
          ⊎ (p ≢ 0)
            × (Early.alloc_aligned layout.size layout.align s ≡ some (some p, t))
            × (t.early.frozen ≡ false)
            × InUse t.early.heap_start bs' ptr)
