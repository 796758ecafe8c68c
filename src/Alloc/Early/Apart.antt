-- ===== src/Alloc/Early/Apart.antt =====
-- What a request does to the allocated blocks.
use mathlib.Core.Path.{subst}
use nt_rustos.Common.{
  ℕ, ◌+◌, ◌-◌, ◌^◌, ◌≤◌, ◌≡◌, refl, ap, sym, ◌∙◌, ◌⊎◌, inl, inr, List, [], ◌∷◌, ◌++◌, arith,
  append_assoc, Option, none, some, true, false, Bool-cases, zero-cases,
}
use nt_rustos.Alloc.Header.{allocated}
use nt_rustos.Alloc.Early.{State, alloc_aligned, is_power_of_two}
use nt_rustos.Alloc.Early.Layout.{
  Block, free_block, allocated_block, size, status, span, Tiles, Tiles-end, Tiles-split,
  span-append,
}
use nt_rustos.Alloc.Early.Invariant.{Inv}
use nt_rustos.Alloc.Early.Allocate.{Allocated, alloc_aligned-result, alloc_aligned-refuse}
use nt_rustos.Alloc.Early.Sequence.{AtBlock, Tiles-prefix}
use nt_rustos.Alloc.Early.Persist.{head_or, tail, left_span}

-- The bytes of a new block at `user` and an allocated block whose user has the address `ptr`: the
-- two do not meet, and the header of the old block says what it said.
pub record Apart (s : State) (ptr user bytes : ℕ) (t : State) : Type 0 where
  pub apart : (user + bytes ≤ ptr - 48) ⊎ (ptr + (s.mem.header (ptr - 48)).size ≤ user)
  pub same_size : (t.mem.header (ptr - 48)).size ≡ (s.mem.header (ptr - 48)).size
  pub still_allocated : (t.mem.header (ptr - 48)).status ≡ allocated

-- An allocated block `b` of a row in which a free block is split: it is in the new row too, at the
-- same place, before or behind the free one.
record Kept (pre xs post left : List Block) (room k : ℕ) (b : Block) : Type 0 where
  before : List Block
  after : List Block
  row : pre ++ allocated_block k ∷ (left ++ post) ≡ before ++ b ∷ after
  same_place : span before ≡ span xs
  side : (span xs + size b + 48 ≤ span pre) ⊎ (span pre + room + 48 ≤ span xs)

block-Kept :
    (pre xs post rest left : List Block) (room k : ℕ) (b : Block)
    → status b ≡ allocated
    → pre ++ free_block room ∷ post ≡ xs ++ b ∷ rest
    → k + 48 + span left ≡ room + 48
    → Kept pre xs post left room k b
block-Kept [] [] post rest left room k b held e w =
    let same : status (free_block room) ≡ status b = ap (λ l. status (head_or b l)) e in cc
block-Kept (p ∷ pre) [] post rest left room k b held e w =
    let same : p ≡ b = ap (head_or b) e in
    record {
      before = [];
      after = pre ++ allocated_block k ∷ (left ++ post);
      row = ap (λ c. c ∷ (pre ++ allocated_block k ∷ (left ++ post))) same;
      same_place = refl;
      side = inl (omega (arith, ap size same));
    }
block-Kept [] (x ∷ xs) post rest left room k b held e w =
    let first = ap (λ l. size (head_or b l)) e in
    let others : post ≡ xs ++ b ∷ rest = ap tail e in
    record {
      before = allocated_block k ∷ (left ++ xs);
      after = rest;
      row =
          ap (λ l. allocated_block k ∷ (left ++ l)) others
          ∙ ap (λ l. allocated_block k ∷ l) (sym (append_assoc left xs (b ∷ rest)));
      same_place = omega (arith, span-append left xs, w, first);
      side = inr (omega (arith, first));
    }
block-Kept (p ∷ pre) (x ∷ xs) post rest left room k b held e w =
    let kept = block-Kept pre xs post rest left room k b held (ap tail e) w in
    let same : size p ≡ size x = ap (λ l. size (head_or b l)) e in
    record {
      before = p ∷ kept.before;
      after = kept.after;
      row = ap (λ l. p ∷ l) kept.row;
      same_place = omega (arith, kept.same_place, same);
      side = elim kept.side [
        | inl h ↦ inl (omega (arith, h, same))
        | inr h ↦ inr (omega (arith, h, same))
      ];
    }

room_bound : (left : List Block) (k room : ℕ) → k + 48 + span left ≡ room + 48 → k ≤ room
room_bound left k room w = omega (arith, w)

module _ (s : State) (bs : List Block) (ptr : ℕ) (inv : Inv s bs) (there : AtBlock s ptr) where
  Allocated-Apart :
      (n align : ℕ) (r : Option (Option ℕ × State))
      → (s.mem.header (ptr - 48)).status ≡ allocated
      → (a : Allocated s bs n align r) → Apart s ptr a.user n a.state
  Allocated-Apart n align r held a =
      let (xs, x, walk, inside, place) = there in
      let at : ptr - 48 ≡ x = omega (arith, place) in
      let start = s.early.heap_start in
      let (b, rest, split) =
        Tiles-prefix s.mem start x s.early.heap_end xs bs walk inv.tiles inside in
      let here = Tiles-end s.mem start x xs walk in
      let old =
        (Tiles-split s.mem start x s.early.heap_end xs (b ∷ rest) here
          (subst (λ l. Tiles s.mem start l s.early.heap_end) split inv.tiles)).1 in
      let taken : status b ≡ allocated =
        sym old.1 ∙ ap (λ y. (s.mem.header y).status) (sym at) ∙ held in
      let width = left_span a.left a.block_size a.room a.shape in
      let kept =
        block-Kept a.pre xs a.post rest a.left a.room a.block_size b taken (sym a.blocks ∙ split)
          width in
      let new =
        (Tiles-split a.state.mem a.state.early.heap_start x a.state.early.heap_end kept.before
          (b ∷ kept.after) (omega (arith, kept.same_place, a.start_same, here))
          (subst (λ l. Tiles a.state.mem a.state.early.heap_start l a.state.early.heap_end) kept.row
            a.inv_after.tiles)).1 in
      record {
        apart = elim kept.side [
          | inl h ↦ inr (rw at (omega (arith, h, old.0, a.low, here, place)))
          | inr h ↦ inl (omega (arith, h, a.high, here, at, width))
        ];
        same_size = rw at (new.0 ∙ sym old.0);
        still_allocated = rw at (new.1 ∙ taken);
      }

  abbrev Served : ℕ → Option (Option ℕ × State) → Type 0
  Served n none = Unit {0}
  Served n (some (none, t)) = Unit {0}
  Served n (some (some user, t)) = Apart s ptr user n t

  alloc_aligned-Served :
      (n align : ℕ)
      → (s.mem.header (ptr - 48)).status ≡ allocated
      → s.early.heap_end + align + n + 64 ≤ 2 ^ 64
      → Served n (alloc_aligned n align s)
  alloc_aligned-Served n align held small =
      let refused : (s.early.frozen ≡ true) ⊎ (n ≡ 0) ⊎ (is_power_of_two align ≡ false)
          → Served n (alloc_aligned n align s) =
        λ h. subst (Served n) (sym (alloc_aligned-refuse s bs n align inv h)) tt in
      elim (Bool-cases s.early.frozen) [
        | inl e ↦ refused (inl e)
        | inr live ↦ elim (Bool-cases (is_power_of_two align)) [
          | inr e ↦ refused (inr (inr e))
          | inl p ↦ elim (zero-cases n) [
            | inl e ↦ refused (inr (inl e))
            | inr pos ↦ elim (alloc_aligned-result s bs n align inv live pos p small) [
              | inl a ↦ subst (Served n) (sym a.returns) (Allocated-Apart n align _ held a)
              | inr q ↦ subst (Served n) (sym q.1) tt
            ]
          ]
        ]
      ]

  -- In a sound heap a request that is met, if it stays below the end of the address space, leaves
  -- every allocated block alone: the bytes it hands out lie before the header of that block or behind
  -- its last byte, and the block keeps its size and its status.
  pub alloc_aligned-Apart :
      (n align user : ℕ) (t : State)
      → (s.mem.header (ptr - 48)).status ≡ allocated
      → s.early.heap_end + align + n + 64 ≤ 2 ^ 64
      → alloc_aligned n align s ≡ some (some user, t)
      → Apart s ptr user n t
  alloc_aligned-Apart n align user t held small e =
      subst (Served n) e (alloc_aligned-Served n align held small)
