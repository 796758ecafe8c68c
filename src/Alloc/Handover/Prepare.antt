-- ===== src/Alloc/Handover/Prepare.antt =====
-- What `fill_handover` collects from a sound heap.
use nt_rustos.Common.{
  ℕ, zero, suc, ◌+◌, ◌-◌, ◌^◌, ◌<◌, ◌≤◌, ◌≡◌, refl, ◌∙◌, ap, List, [], ◌∷◌, length, arith, true,
  false, some, add64, sub64, take, drop, replicate, ◌++◌, leb, le→leb, ltb, lt→ltb, le→ltb, ≢→==,
  ◌==◌, zero-cases, inl, inr, ≡→==,
}
use nt_rustos.Alloc.Memory.{Memory}
use nt_rustos.Alloc.Early.{State, fuel_of}
use nt_rustos.Alloc.Early.Layout.{
  Block, free_block, allocated_block, Tiles, Tiles-end, count_allocated, used_total, used_total-le,
}
use nt_rustos.Alloc.Early.Invariant.{Inv}
use nt_rustos.Alloc.Early.Integrity.{length-span}
use nt_rustos.Alloc.Handover.{
  fill_handover, update_checksum, new, allocated_size, calculate_checksum, tracked, sum_where,
  HandoverInfo, AllocatedBlock, filled, no_block, validate, invalid, note, collect_blocks,
}

-- The allocated blocks of a row, as they are noted.
abbrev pub noted : Memory → ℕ → List Block → List AllocatedBlock
noted m a [] = []
noted m a (free_block n ∷ bs) = noted m (a + n + 48) bs
noted m a (allocated_block n ∷ bs) = note a (m.header a) ∷ noted m (a + n + 48) bs

-- With fuel for the row and room for its allocated blocks, the loop ends with all of them.
collect_blocks-noted :
    (m : Memory) (fuel room a e : ℕ) (bs : List Block)
    → e < 2 ^ 64
    → length bs < fuel
    → count_allocated bs ≤ room
    → Tiles m a bs e
    → collect_blocks m e fuel room a ≡ some (noted m a bs)
unfolding collect_blocks
collect_blocks-noted m zero room a e bs h f r t = absurd (omega arith)
collect_blocks-noted m (suc fuel) room a e [] h f r t =
    let stop : ltb a e ≡ false = le→ltb _ _ (omega (arith, t)) in rw stop refl
collect_blocks-noted m (suc fuel) room a e (free_block n ∷ bs) h f r t =
    let end = Tiles-end m a e (free_block n ∷ bs) t in
    let more : ltb a e ≡ true = lt→ltb _ _ (omega arith) in
    let next : add64 a (add64 (m.header a).size 48) ≡ a + n + 48 = omega (arith, t.0) in
    rw (more, t.1, next) (collect_blocks-noted m fuel room (a + n + 48) e bs h (omega arith) r t.4)
collect_blocks-noted m (suc fuel) room a e (allocated_block n ∷ bs) h f r t =
    let end = Tiles-end m a e (allocated_block n ∷ bs) t in
    let more : ltb a e ≡ true = lt→ltb _ _ (omega arith) in
    let next : add64 a (add64 (m.header a).size 48) ≡ a + n + 48 = omega (arith, t.0) in
    let open_room : (room == 0) ≡ false = ≢→== _ _ (λ x. omega arith) in
    let rest =
      collect_blocks-noted m fuel (room - 1) (a + n + 48) e bs h (omega arith) (omega arith) t.4 in
    rw (more, t.1, open_room, next, rest) refl

length-noted : (m : Memory) (a : ℕ) (bs : List Block) → length (noted m a bs) ≡ count_allocated bs
length-noted m a [] = refl
length-noted m a (free_block n ∷ bs) = length-noted m (a + n + 48) bs
length-noted m a (allocated_block n ∷ bs) = ap suc (length-noted m (a + n + 48) bs)

-- The sizes that are noted add up to the bytes in use.
sum_where-noted :
    (m : Memory) (total a e : ℕ) (bs : List Block)
    → total + used_total bs < 2 ^ 64
    → Tiles m a bs e
    → sum_where (λ p. true) total (noted m a bs) ≡ total + used_total bs
sum_where-noted m total a e [] h t = omega arith
sum_where-noted m total a e (free_block n ∷ bs) h t =
    sum_where-noted m total (a + n + 48) e bs h t.4
sum_where-noted m total a e (allocated_block n ∷ bs) h t =
    let more : add64 total (m.header a).size ≡ total + n = omega (arith, t.0) in
    let rest = sum_where-noted m (total + n) (a + n + 48) e bs (omega arith) t.4 in
    ap (λ (k : ℕ). sum_where (λ p. true) k (noted m (a + n + 48) bs)) more ∙ rest ∙ omega arith

take-noted : (xs ys : List AllocatedBlock) → take (length xs) (xs ++ ys) ≡ xs
take-noted [] ys = refl
take-noted (x ∷ xs) ys = ap (λ l. x ∷ l) (take-noted xs ys)

fill_handover-filled :
    (now : ℕ) (s : State) (bs : List Block)
    → Inv s bs
    → count_allocated bs ≤ 512
    → fill_handover now s ≡ some (filled now s (noted s.mem s.early.heap_start bs))
unfolding fill_handover
fill_handover-filled now s bs inv few =
    let end = Tiles-end s.mem s.early.heap_start s.early.heap_end bs inv.tiles in
    let short = length-span bs in
    let found =
      collect_blocks-noted s.mem (fuel_of s) 512 s.early.heap_start s.early.heap_end bs inv.bounded
        (omega arith) few inv.tiles in
    rw (found, fill_handover) refl

-- With fuel for the row the loop ends, also if there is no room for all its allocated blocks.
collect_blocks-ends :
    (m : Memory) (fuel room a e : ℕ) (bs : List Block)
    → e < 2 ^ 64
    → length bs < fuel
    → Tiles m a bs e
    → (xs : List AllocatedBlock) × (collect_blocks m e fuel room a ≡ some xs)
unfolding collect_blocks
collect_blocks-ends m zero room a e bs h f t = absurd (omega arith)
collect_blocks-ends m (suc fuel) room a e [] h f t =
    let stop : ltb a e ≡ false = le→ltb _ _ (omega (arith, t)) in ([], rw stop refl)
collect_blocks-ends m (suc fuel) room a e (free_block n ∷ bs) h f t =
    let end = Tiles-end m a e (free_block n ∷ bs) t in
    let more : ltb a e ≡ true = lt→ltb _ _ (omega arith) in
    let next : add64 a (add64 (m.header a).size 48) ≡ a + n + 48 = omega (arith, t.0) in
    let (xs, rest) = collect_blocks-ends m fuel room (a + n + 48) e bs h (omega arith) t.4 in
    (xs, rw (more, t.1, next) rest)
collect_blocks-ends m (suc fuel) room a e (allocated_block n ∷ bs) h f t =
    let end = Tiles-end m a e (allocated_block n ∷ bs) t in
    let more : ltb a e ≡ true = lt→ltb _ _ (omega arith) in
    let next : add64 a (add64 (m.header a).size 48) ≡ a + n + 48 = omega (arith, t.0) in
    let (xs, rest) = collect_blocks-ends m fuel (room - 1) (a + n + 48) e bs h (omega arith) t.4 in
    elim (zero-cases room) [
      | inl z ↦ ([], rw (more, t.1, ≡→== room 0 z) refl)
      | inr pos ↦
          let open_room : (room == 0) ≡ false = ≢→== _ _ (λ x. omega arith) in
          (note a (m.header a) ∷ xs, rw (more, t.1, open_room, next, rest) refl)
    ]

-- `fill_handover` on any sound heap ends.
pub fill_handover-ends :
    (now : ℕ) (s : State) (bs : List Block)
    → Inv s bs
    → (info : HandoverInfo) × (fill_handover now s ≡ some info)
unfolding fill_handover
fill_handover-ends now s bs inv =
    let end = Tiles-end s.mem s.early.heap_start s.early.heap_end bs inv.tiles in
    let (xs, found) =
      collect_blocks-ends s.mem (fuel_of s) 512 s.early.heap_start s.early.heap_end bs inv.bounded
        (omega (arith, length-span bs)) inv.tiles in
    (filled now s xs, rw (found, fill_handover) refl)

-- `fill_handover` on a sound heap of at most 512 allocated blocks ends. It tracks exactly the
-- allocated blocks, in the order of their addresses, and their sizes add up to the number of bytes in
-- use.
pub fill_handover-noted :
    (now : ℕ) (s : State) (bs : List Block)
    → Inv s bs
    → count_allocated bs ≤ 512
    → (info : HandoverInfo) × (fill_handover now s ≡ some info)
      × (tracked info ≡ noted s.mem s.early.heap_start bs)
      × (allocated_size info ≡ info.statistics.used_size)
unfolding filled update_checksum new allocated_size calculate_checksum
fill_handover-noted now s bs inv few =
    let end = Tiles-end s.mem s.early.heap_start s.early.heap_end bs inv.tiles in
    let blocks = noted s.mem s.early.heap_start bs in
    let whole = take-noted blocks (drop (length blocks) (replicate 512 no_block)) in
    let sum =
      sum_where-noted s.mem 0 s.early.heap_start s.early.heap_end bs
        (omega (arith, used_total-le bs, inv.bounded)) inv.tiles in
    (
      filled now s blocks,
      fill_handover-filled now s bs inv few,
      whole,
      ap (sum_where (λ p. true) 0) whole ∙ sum ∙ omega (arith, inv.counts.used_size),
    )

-- What `fill_handover` makes of a heap whose start is not below its size is not valid: the end
-- of the heap is its size there.
pub fill_handover-range :
    (now : ℕ) (s : State) (bs : List Block)
    → Inv s bs
    → count_allocated bs ≤ 512
    → s.early.heap_end - s.early.heap_start ≤ s.early.heap_start
    → (info : HandoverInfo) × (fill_handover now s ≡ some info)
      × (validate info ≡ invalid "Invalid heap range")
unfolding filled update_checksum new validate
fill_handover-range now s bs inv few high =
    let end = Tiles-end s.mem s.early.heap_start s.early.heap_end bs inv.tiles in
    let size : sub64 s.early.heap_end s.early.heap_start ≡ s.early.heap_end - s.early.heap_start =
      omega (arith, inv.bounded) in
    let over : leb (sub64 s.early.heap_end s.early.heap_start) s.early.heap_start ≡ true =
      le→leb _ _ (omega arith) in
    (
      filled now s (noted s.mem s.early.heap_start bs),
      fill_handover-filled now s bs inv few,
      rw over refl,
    )
