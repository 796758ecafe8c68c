-- ===== src/Alloc/Handover/Valid.antt =====
-- What `validate` checks of a handover.
use Prim.Native.String.{String}
use nt_rustos.Common.{
  ℕ, ◌≡◌, ◌<◌, ◌≤◌, ◌⊎◌, ◌↔◌, inl, inr, refl, List, [], ◌∷◌, arith, true, false, Bool, Bool-cases,
  ◌||◌, ltb, if◌then◌else◌, leb→lt, ltb→le, le→ltb, ==→≡, ≡→==, not, lt→leb,
}
use nt_rustos.Alloc.Handover.{
  AllocatedBlock, HandoverInfo, Validation, valid, invalid, end_addr, overlaps_with, tracked,
  outside_range, overlaps_one, overlapping, validate, calculate_checksum, allocated_size,
  handover_magic, handover_protocol_version, max_tracked_blocks,
}

-- Every block lies between the two addresses.
abbrev pub Inside : ℕ → ℕ → List AllocatedBlock → Type 0
Inside start end [] = Unit {0}
Inside start end (b ∷ bs) = ((start ≤ b.addr) × (end_addr b ≤ end)) × Inside start end bs

-- One of the blocks ends before the other begins.
abbrev pub Apart : AllocatedBlock → AllocatedBlock → Type 0
Apart a b = (end_addr b ≤ a.addr) ⊎ (end_addr a ≤ b.addr)

abbrev pub ApartFrom : AllocatedBlock → List AllocatedBlock → Type 0
ApartFrom a [] = Unit {0}
ApartFrom a (b ∷ bs) = Apart a b × ApartFrom a bs

abbrev pub Disjoint : List AllocatedBlock → Type 0
Disjoint [] = Unit {0}
Disjoint (b ∷ bs) = ApartFrom b bs × Disjoint bs

-- The identification, the checksum, the heap's range, the blocks and their sizes are as they
-- should be.
pub record Consistent (info : HandoverInfo) : Type 0 where
  pub magic_is : info.magic ≡ handover_magic
  pub version_is : info.version ≡ handover_protocol_version
  pub range : info.heap_start < info.heap_end
  pub few : info.allocated_count ≤ max_tracked_blocks
  pub checksum_is : info.checksum ≡ calculate_checksum info
  pub inside : Inside info.heap_start info.heap_end (tracked info)
  pub disjoint : Disjoint (tracked info)
  pub sizes : allocated_size info ≡ info.statistics.used_size

or_false : {a b : Bool} → a || b ≡ false → (a ≡ false) × (b ≡ false)
or_false h = (ground arith, ground arith)

outside_range-Inside :
    (start end : ℕ) (bs : List AllocatedBlock)
    → outside_range start end bs ≡ false
    → Inside start end bs
unfolding outside_range
outside_range-Inside start end [] h = tt
outside_range-Inside start end (b ∷ bs) h =
    let two = or_false h in
    let ends = or_false two.0 in
    ((ltb→le _ _ ends.0, ltb→le _ _ ends.1), outside_range-Inside start end bs two.1)

Inside-outside_range :
    (start end : ℕ) (bs : List AllocatedBlock)
    → Inside start end bs
    → outside_range start end bs ≡ false
unfolding outside_range
Inside-outside_range start end [] h = refl
Inside-outside_range start end (b ∷ bs) h =
    let low = le→ltb _ _ h.0.0 in
    let high = le→ltb _ _ h.0.1 in let rest = Inside-outside_range start end bs h.1 in ground arith

overlaps_with-Apart : (a b : AllocatedBlock) → overlaps_with a b ≡ false → Apart a b
unfolding overlaps_with
overlaps_with-Apart a b h = elim (Bool-cases (ltb a.addr (end_addr b))) [
  | inl l ↦ inr (ltb→le _ _ (rw l at h))
  | inr g ↦ inl (ltb→le _ _ g)
]

Apart-overlaps_with : (a b : AllocatedBlock) → Apart a b → overlaps_with a b ≡ false
unfolding overlaps_with
Apart-overlaps_with a b (inl l) = let g = le→ltb _ _ l in ground arith
Apart-overlaps_with a b (inr l) = let g = le→ltb _ _ l in ground arith

overlaps_one-ApartFrom :
    (a : AllocatedBlock) (bs : List AllocatedBlock) → overlaps_one a bs ≡ false → ApartFrom a bs
unfolding overlaps_one
overlaps_one-ApartFrom a [] h = tt
overlaps_one-ApartFrom a (b ∷ bs) h =
    let two = or_false h in (overlaps_with-Apart a b two.0, overlaps_one-ApartFrom a bs two.1)

ApartFrom-overlaps_one :
    (a : AllocatedBlock) (bs : List AllocatedBlock) → ApartFrom a bs → overlaps_one a bs ≡ false
unfolding overlaps_one
ApartFrom-overlaps_one a [] h = refl
ApartFrom-overlaps_one a (b ∷ bs) h =
    let first = Apart-overlaps_with a b h.0 in
    let rest = ApartFrom-overlaps_one a bs h.1 in rw (first, rest) refl

overlapping-Disjoint : (bs : List AllocatedBlock) → overlapping bs ≡ false → Disjoint bs
unfolding overlapping
overlapping-Disjoint [] h = tt
overlapping-Disjoint (b ∷ bs) h =
    let two = or_false h in (overlaps_one-ApartFrom b bs two.0, overlapping-Disjoint bs two.1)

Disjoint-overlapping : (bs : List AllocatedBlock) → Disjoint bs → overlapping bs ≡ false
unfolding overlapping
Disjoint-overlapping [] h = refl
Disjoint-overlapping (b ∷ bs) h =
    let first = ApartFrom-overlaps_one b bs h.0 in
    let rest = Disjoint-overlapping bs h.1 in rw (first, rest) refl

-- A check that is passed, and what follows it.
passed :
    (b : Bool) (why : String) (v : Validation)
    → if◌then◌else◌ b (invalid why) v ≡ valid
    → (b ≡ false) × (v ≡ valid)
passed true why v h = cc
passed false why v h = (refl, h)

of_not : (b : Bool) → not b ≡ false → b ≡ true
of_not b h = ground arith

-- `validate` accepts exactly the handovers that are consistent.
pub validate-Consistent : (info : HandoverInfo) → (validate info ≡ valid) ↔ Consistent info
unfolding validate
validate-Consistent info = (
  λ h.
      (let a = passed _ _ _ h in
        let b = passed _ _ _ a.1 in
        let c = passed _ _ _ b.1 in
        let d = passed _ _ _ c.1 in
        let e = passed _ _ _ d.1 in
        let f = passed _ _ _ e.1 in
        let g = passed _ _ _ f.1 in
        let k = passed _ _ _ g.1 in
        record {
          magic_is = ==→≡ _ _ (of_not _ a.0);
          version_is = ==→≡ _ _ (of_not _ b.0);
          range = leb→lt _ _ c.0;
          few = ltb→le _ _ d.0;
          checksum_is = ==→≡ _ _ (of_not _ e.0);
          inside = outside_range-Inside _ _ _ f.0;
          disjoint = overlapping-Disjoint _ g.0;
          sizes = ==→≡ _ _ (of_not _ k.0);
        }),
  λ c.
      (let range = lt→leb _ _ c.range in
        let few = le→ltb _ _ c.few in
        let magic = ≡→== _ _ c.magic_is in
        let version = ≡→== _ _ c.version_is in
        let sum = ≡→== _ _ c.checksum_is in
        let inside = Inside-outside_range _ _ _ c.inside in
        let apart = Disjoint-overlapping _ c.disjoint in
        let sizes = ≡→== _ _ c.sizes in
        rw (magic, version, range, few, sum, inside, apart, sizes) refl),
)
