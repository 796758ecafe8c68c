-- ===== src/Alloc/Global/Boxes/Life.antt =====
-- The life of a box in a heap that its owner shares with other clients.
use nt_rustos.Common.{ℕ, ◌+◌, ◌%◌, ◌^◌, ◌<◌, ◌≤◌, ◌≡◌, List, [], ◌∷◌, true, Option, none, some}
use nt_rustos.Alloc.Early
use nt_rustos.Alloc.Early.{State, is_power_of_two, ◌>>=◌, non_null}
use nt_rustos.Alloc.Early.Client.{IsShared}
use nt_rustos.Alloc.Guarded
use nt_rustos.Alloc.Guarded.{ThreadSafeEarlyAllocator, hold}
use nt_rustos.Alloc.Global
use nt_rustos.Alloc.Global.{Layout}
use nt_rustos.Alloc.Global.Boxes
use nt_rustos.Alloc.Global.Boxes.{EarlyBox, Store, deref, drop}

-- A layout of a type: its size is a multiple of 8 and not 0, its alignment a power of two up to 8.
pub record IsModest (end : ℕ) (layout : Layout) : Type 0 where
  pub positive : 0 < layout.size
  pub whole : layout.size % 8 ≡ 0
  pub power : is_power_of_two layout.align ≡ true
  pub small : layout.align ≤ 8
  pub near : end + layout.size + 72 ≤ 2 ^ 63

-- The values at the addresses of a list are the same.
abbrev pub SameAt : {T : Type 0} → (ℕ → Option T) → (ℕ → Option T) → List ℕ → Type 0
SameAt f g [] = Unit {0}
SameAt f g (q ∷ qs) = (f q ≡ g q) × SameAt f g qs

-- What `EarlyBox::new` comes to: no room, or a box that holds the value. The box can then be dropped,
-- whatever was written through it.
pub data Boxed {T : Type 0} (end : ℕ) (layout : Layout) (value : T) (held : List ℕ)
    (values : ℕ → Option T) : Option EarlyBox → Store T → Type 0 where
  no_room :
      (t : State)
      → IsShared end t held
      → Boxed end layout value held values none (record { allocator = hold t; values = values })
  boxed :
      (t u : State) (p : ℕ) (after : ℕ → Option T)
      → IsShared end t (p ∷ held)
      → after p ≡ some value
      → SameAt after values held
      → ((last : ℕ → Option T)
          → drop layout (record { ptr = p }) (record { allocator = hold t; values = last })
            ≡ some (record { allocator = hold u; values = last }))
      → IsShared end u held
      → Boxed end layout value held values
          (some (record { ptr = p }))
          (record { allocator = hold t; values = after })

module _ {T : Type 0} (end : ℕ) (layout : Layout) (m : IsModest end layout) where
  abbrev Result : State → List ℕ → (ℕ → Option T) → T → Type 0
  Result s held values value =
      (b : Option EarlyBox) × (st : Store T) × (Boxes.new layout value
          (record { allocator = hold s; values = values })
        ≡ some (b, st))
      × Boxed end layout value held values b st
