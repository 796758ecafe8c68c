-- ===== src/Alloc/Early/Client.antt =====
-- A client of the allocator that keeps the addresses that it was given. It asks for sizes that are
-- multiples of 8, at alignments up to 8, and gives back only what it holds.
pub mod Owned
pub mod Serve
mod Tests
use mathlib.Core.Path.{subst}
use mathlib.Core.List.{filter}
use nt_rustos.Common.{
  ℕ, zero, suc, ◌+◌, ◌%◌, ◌^◌, ◌<◌, ◌≤◌, ◌≡◌, ◌≢◌, refl, ap, sym, ◌∙◌, ◌⊎◌, inl, inr, List, [], ◌∷◌,
  ◌++◌, arith, Bool, true, false, Bool-cases, zero-cases, Option, none, some, max,
}
use nt_rustos.Alloc.Early.{State, alloc_aligned, dealloc, is_power_of_two, ok, err, ◌>>=◌}
use nt_rustos.Alloc.Early.Layout.{Block, free_block, allocated_block, span}
use nt_rustos.Alloc.Early.Invariant.{Inv}
use nt_rustos.Alloc.Early.InUse.{InUse, InUse-block, InUse-taken, InUse-new, InUse-released}
use nt_rustos.Alloc.Early.Tidy.{IsTidy, IsTidy-split, IsTidy-taken, IsTidy-released, span-IsTidy}
use nt_rustos.Alloc.Early.Allocate.{
  Allocated, alloc_aligned-result, alloc_aligned-refuse, failed, failed-Inv,
}
use nt_rustos.Alloc.Early.Release.{freed, freed-kept, dealloc-freed}
use nt_rustos.Alloc.Early.Coalesce.{released}
use nt_rustos.Alloc.Early.Persist.{left_span}

-- What the client does: it asks for bytes at an alignment, or gives back the address that stands at
-- a place in its list.
pub data Deed : Type 0 where
  ask : ℕ → ℕ → Deed
  give : ℕ → Deed

-- The address at a place of a list, and the others.
abbrev pub pick : ℕ → List ℕ → Option (ℕ × List ℕ)
pick i [] = none
pick zero (p ∷ ps) = some (p, ps)
pick (suc i) (p ∷ ps) = elim (pick i ps) [ none ↦ none | some (q, qs) ↦ some (q, p ∷ qs) ]

-- One deed. `none` is a loop that has not ended within its fuel, or an address that `dealloc` refuses.
unfoldable pub act : Deed → State × List ℕ → Option (State × List ℕ)
act (ask size align) (s, held) =
    alloc_aligned size align s >>= λ r. some (r.1, elim r.0 [ none ↦ held | some p ↦ p ∷ held ])
act (give i) (s, held) = elim (pick i held) [
  | none ↦ some (s, held)
  | some (p, rest) ↦ dealloc p s >>= λ r. elim r.0 [ ok u ↦ some (r.1, rest) | err e ↦ none ]
]

unfoldable pub acts : List Deed → State × List ℕ → Option (State × List ℕ)
unfolding act
acts [] c = some c
acts (d ∷ ds) c = act d c >>= acts ds

-- The sizes and alignments that the client asks for, in a heap that ends at `end`.
abbrev pub Modest : ℕ → Deed → Type 0
Modest end (ask size align) =
    (size % 8 ≡ 0) × (is_power_of_two align ≡ true) × (align ≤ 8) × (end + size + 72 ≤ 2 ^ 64)
Modest end (give i) = Unit {0}

abbrev pub AllModest : ℕ → List Deed → Type 0
AllModest end [] = Unit {0}
AllModest end (d ∷ ds) = Modest end d × AllModest end ds

-- The addresses that the client holds: they are those of allocated blocks, and no two are the same.
abbrev pub Differ : ℕ → List ℕ → Type 0
Differ p [] = Unit {0}
Differ p (q ∷ qs) = (p ≢ q) × Differ p qs

abbrev pub Owns : ℕ → List Block → List ℕ → Type 0
Owns a bs [] = Unit {0}
Owns a bs (p ∷ ps) = InUse a bs p × Differ p ps × Owns a bs ps

-- A heap that a client can share: sound, not frozen, tidy, and with the client's addresses in use.
pub record IsShared (end : ℕ) (s : State) (held : List ℕ) : Type 0 where
  pub blocks : List Block
  pub sound : Inv s blocks
  pub live : s.early.frozen ≡ false
  pub tidy : IsTidy blocks
  pub start_even : s.early.heap_start % 8 ≡ 0
  pub ends : s.early.heap_end ≡ end
  pub owned : Owns s.early.heap_start blocks held
