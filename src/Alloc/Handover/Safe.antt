-- ===== src/Alloc/Handover/Safe.antt =====
-- What a handover that `validate` accepts means for the bytes of its blocks.
use nt_rustos.Common.{ℕ, ◌+◌, ◌^◌, ◌≡◌, ◌<◌, ◌≤◌, inl, inr, List, [], ◌∷◌, arith}
use nt_rustos.Alloc.Handover.{AllocatedBlock, HandoverInfo, valid, tracked, validate}
use nt_rustos.Alloc.Handover.Valid.{Inside, ApartFrom, Disjoint, validate-Consistent}

-- The address of a byte of a block.
abbrev pub Within : AllocatedBlock → ℕ → Type 0
Within b a = (b.addr ≤ a) × (a < b.addr + b.size)

-- No block reaches the end of the address space.
abbrev pub Fitting : List AllocatedBlock → Type 0
Fitting [] = Unit {0}
Fitting (b ∷ bs) = (b.addr + b.size < 2 ^ 64) × Fitting bs

-- Every byte of every block lies between the two addresses.
abbrev pub Covered : ℕ → ℕ → List AllocatedBlock → Type 0
Covered start end [] = Unit {0}
Covered start end (b ∷ bs) = ((a : ℕ) → Within b a → (start ≤ a) × (a < end)) × Covered start end bs

-- A block has no byte of any of the others.
abbrev pub SharesNone : AllocatedBlock → List AllocatedBlock → Type 0
SharesNone b [] = Unit {0}
SharesNone b (c ∷ cs) = ((a : ℕ) → Within b a → ¬ Within c a) × SharesNone b cs

abbrev pub Separate : List AllocatedBlock → Type 0
Separate [] = Unit {0}
Separate (b ∷ bs) = SharesNone b bs × Separate bs

Covered-Inside :
    (start end : ℕ) (bs : List AllocatedBlock)
    → Fitting bs
    → Inside start end bs
    → Covered start end bs
Covered-Inside start end [] f h = tt
Covered-Inside start end (b ∷ bs) f h = (
  λ a w. (omega (arith, w.0, h.0.0), omega (arith, w.1, h.0.1, f.0)),
  Covered-Inside start end bs f.1 h.1,
)

SharesNone-ApartFrom :
    (b : AllocatedBlock) (cs : List AllocatedBlock)
    → b.addr + b.size < 2 ^ 64
    → Fitting cs
    → ApartFrom b cs
    → SharesNone b cs
SharesNone-ApartFrom b [] s f h = tt
SharesNone-ApartFrom b (c ∷ cs) s f h = (
  λ a w x. elim h.0 [
    | inl e ↦ omega (arith, e, w.0, x.1, f.0)
    | inr e ↦ omega (arith, e, w.1, x.0, s)
  ],
  SharesNone-ApartFrom b cs s f.1 h.1,
)

Separate-Disjoint : (bs : List AllocatedBlock) → Fitting bs → Disjoint bs → Separate bs
Separate-Disjoint [] f h = tt
Separate-Disjoint (b ∷ bs) f h =
    (SharesNone-ApartFrom b bs f.0 f.1 h.0, Separate-Disjoint bs f.1 h.1)

-- If no tracked block reaches the end of the address space, every byte of every tracked block of a handover
-- that `validate` accepts lies in the heap of the handover, and no byte belongs to two tracked blocks.
pub validate-Separate :
    (info : HandoverInfo)
    → Fitting (tracked info)
    → validate info ≡ valid
    → Covered info.heap_start info.heap_end (tracked info) × Separate (tracked info)
validate-Separate info f h =
    let c = (validate-Consistent info).0 h in
    (
      Covered-Inside info.heap_start info.heap_end (tracked info) f c.inside,
      Separate-Disjoint (tracked info) f c.disjoint,
    )
