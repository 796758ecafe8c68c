-- ===== src/Alloc/Early/Persist.antt =====
-- A request leaves every other block where it is.
use mathlib.Core.Path.{subst}
use nt_rustos.Common.{
  ℕ, ◌+◌, ◌≡◌, refl, ap, sym, ◌∙◌, ◌⊎◌, inl, inr, List, [], ◌∷◌, ◌++◌, arith, append_assoc, Option,
}
use nt_rustos.Alloc.Early.{State}
use nt_rustos.Alloc.Early.Layout.{
  Block, free_block, allocated_block, size, span, Tiles, Tiles-end, Tiles-split, span-append,
}
use nt_rustos.Alloc.Early.Invariant.{Inv}
use nt_rustos.Alloc.Early.Allocate.{Allocated}
use nt_rustos.Alloc.Early.Sequence.{AtBlock, Tiles-prefix}

abbrev pub head_or : Block → List Block → Block
head_or b [] = b
head_or b (x ∷ xs) = x

abbrev pub tail : List Block → List Block
tail [] = []
tail (x ∷ xs) = xs

-- Where a block begins one begins again, once a free block has been split.
span-kept :
    (pre xs post rest left : List Block) (room k : ℕ) (b : Block)
    → pre ++ free_block room ∷ post ≡ xs ++ b ∷ rest
    → k + 48 + span left ≡ room + 48
    → (ys : List Block) × (c : Block) × (zs : List Block) × (pre
          ++ allocated_block k ∷ (left ++ post)
        ≡ ys ++ c ∷ zs)
      × (span ys ≡ span xs)
span-kept [] [] post rest left room k b e w = ([], allocated_block k, left ++ post, refl, refl)
span-kept (p ∷ pre) [] post rest left room k b e w =
    ([], p, pre ++ allocated_block k ∷ (left ++ post), refl, refl)
span-kept [] (x ∷ xs) post rest left room k b e w =
    let first = ap (head_or b) e in
    let others : post ≡ xs ++ b ∷ rest = ap tail e in
    (
      allocated_block k ∷ (left ++ xs),
      b,
      rest,
      ap (λ l. allocated_block k ∷ (left ++ l)) others
          ∙ ap (λ l. allocated_block k ∷ l) (sym (append_assoc left xs (b ∷ rest))),
      omega (arith, span-append left xs, w, ap size first),
    )
span-kept (p ∷ pre) (x ∷ xs) post rest left room k b e w =
    let (ys, c, zs, f, g) = span-kept pre xs post rest left room k b (ap tail e) w in
    let same : size p ≡ size x = ap size (ap (head_or b) e) in
    (p ∷ ys, c, zs, ap (λ l. p ∷ l) f, omega (arith, g, same))

pub left_span :
    (left : List Block) (k room : ℕ)
    → ((left ≡ []) × (k ≡ room)) ⊎ ((q : ℕ) × (left ≡ free_block q ∷ []) × (k + 48 + q ≡ room))
    → k + 48 + span left ≡ room + 48
left_span left k room (inl (e, f)) = rw (e, f) (omega arith)
left_span left k room (inr (q, e, f)) = rw e (omega (arith, f))

-- The block of an address is still there after a request that was met.
pub AtBlock-kept :
    (s : State) (bs : List Block) (n align user : ℕ) (r : Option (Option ℕ × State))
    → Inv s bs
    → (a : Allocated s bs n align r) → AtBlock s user
    → AtBlock a.state user
AtBlock-kept s bs n align user r inv a (xs, x, walk, inside, place) =
    let (b, rest, split) =
      Tiles-prefix s.mem s.early.heap_start x s.early.heap_end xs bs walk inv.tiles inside in
    let (ys, c, zs, e, g) =
      span-kept a.pre xs a.post rest a.left a.room a.block_size b (sym a.blocks ∙ split)
        (left_span a.left a.block_size a.room a.shape) in
    let there : a.state.early.heap_start + span ys ≡ x =
      omega (arith, g, a.start_same, Tiles-end s.mem s.early.heap_start x xs walk) in
    let sound =
      subst (λ l. Tiles a.state.mem a.state.early.heap_start l a.state.early.heap_end) e
        a.inv_after.tiles in
    (
      ys,
      x,
      (Tiles-split a.state.mem a.state.early.heap_start x a.state.early.heap_end ys (c ∷ zs) there
          sound).0,
      omega (arith, inside, a.end_same),
      place,
    )
