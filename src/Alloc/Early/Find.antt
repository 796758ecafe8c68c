-- ===== src/Alloc/Early/Find.antt =====
-- `find_free_block` finds the first block that fits.
use nt_rustos.Common.{
  ℕ, zero, suc, ◌+◌, ◌^◌, ◌<◌, ◌≤◌, ◌≡◌, refl, ap, ◌⊎◌, inl, inr, Option, some, none, List, [], ◌∷◌,
  ◌++◌, arith, length, leb, Bool-cases, ◌==◌, false, ≢→==,
}
use nt_rustos.Alloc.Memory.{Memory, null}
use nt_rustos.Alloc.Early.{
  State, find_free_block, required_space, calculate_aligned_addr, header_of,
}
use nt_rustos.Alloc.Early.Chain.{Chain}
use nt_rustos.Alloc.Early.Links.{next_of, prev_of}
use nt_rustos.Alloc.Early.Layout.{
  Block, size, free_block, allocated_block, span, nodes, Tiles, Tiles-end,
}

module _ (want align : ℕ) where
  -- No free block of the row from `a` on has room for the request.
  abbrev pub Rejects : ℕ → List Block → Type 0
  Rejects a [] = Unit
  Rejects a (free_block n ∷ bs) = (n < required_space a want align) × Rejects (a + n + 48) bs
  Rejects a (allocated_block n ∷ bs) = Rejects (a + n + 48) bs

  -- The block behind `pre` is the first with room for the request.
  pub record Hit (a : ℕ) (bs : List Block) (r : Option (Option (ℕ × ℕ))) : Type 0 where
    pub pre : List Block
    pub post : List Block
    pub room : ℕ
    pub at : ℕ
    pub blocks : bs ≡ pre ++ free_block room ∷ post
    pub place : a + span pre ≡ at
    pub first : Rejects a pre
    pub fits : required_space at want align ≤ room
    pub result : r ≡ some (some (at, calculate_aligned_addr at align))

  find-null : (m : Memory) (fuel : ℕ) → find_free_block want align m fuel 0 ≡ some none
  unfolding find_free_block
  find-null m zero = refl
  find-null m (suc fuel) = refl

  Hit-cons :
      (b : Block) (a : ℕ) (bs : List Block) (r : Option (Option (ℕ × ℕ)))
      → (h : Hit (a + size b + 48) bs r) → Rejects a (b ∷ h.pre)
      → Hit a (b ∷ bs) r
  Hit-cons b a bs r h over = record {
    pre = b ∷ h.pre;
    post = h.post;
    room = h.room;
    at = h.at;
    blocks = ap (λ l. b ∷ l) h.blocks;
    place = omega (arith, h.place);
    first = over;
    fits = h.fits;
    result = h.result;
  }

  -- With fuel for the free list the search ends: at the first block with room, or at none, if no
  -- block has room.
  pub find-first :
      (s : State) (fuel p a e : ℕ) (bs : List Block)
      → Tiles s.mem a bs e
      → e < 2 ^ 64
      → Chain (next_of s) (prev_of s) p (nodes a bs)
      → length (nodes a bs) ≤ fuel
      → Hit a bs (find_free_block want align s.mem fuel (next_of s p))
        ⊎ Rejects a bs × (find_free_block want align s.mem fuel (next_of s p) ≡ some none)
  unfolding find_free_block
  find-first s fuel p a e [] t small c f = inr (tt, rw c (find-null s.mem fuel))
  find-first s fuel p a e (allocated_block n ∷ bs) t small c f =
      elim (find-first s fuel p (a + n + 48) e bs t.4 small c f) [
        | inl h ↦ inl (Hit-cons (allocated_block n) a bs _ h h.first)
        | inr r ↦ inr r
      ]
  find-first s zero p a e (free_block n ∷ bs) t small c f = absurd (omega arith)
  find-first s (suc fuel) p a e (free_block n ∷ bs) t small c f =
      let end = Tiles-end s.mem a e (free_block n ∷ bs) t in
      let live : (a + 48 == null) ≡ false = ≢→== _ _ (λ x. omega arith) in
      let block : header_of (a + 48) ≡ a = omega arith in
      let go : next_of s (a + 48) ≡ (s.mem.link (a + 48)).next = rw live refl in
      let rest = find-first s fuel (a + 48) (a + n + 48) e bs t.4 small c.2 (omega arith) in
      elim (Bool-cases (leb (required_space a want align) n)) [
        | inl fit ↦ inl (record {
          pre = [];
          post = bs;
          room = n;
          at = a;
          blocks = refl;
          place = omega arith;
          first = tt;
          fits = ground arith;
          result = rw (c.0, live, block, t.0, fit);
        })
        | inr full ↦
            let over : n < required_space a want align = ground arith in
            rw (c.0, live, block, t.0, full, ← go)
              (elim rest [
                | inl h ↦ inl (Hit-cons (free_block n) a bs _ h (over, h.first))
                | inr r ↦ inr ((over, r.0), r.1)
              ])
      ]
