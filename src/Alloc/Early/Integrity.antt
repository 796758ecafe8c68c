-- ===== src/Alloc/Early/Integrity.antt =====
-- `integrity_check`: the walk over all the headers.
use nt_rustos.Common.{
  ℕ, suc, ◌+◌, ◌-◌, ◌^◌, refl, ◌<◌, ◌≤◌, ◌≡◌, List, [], ◌∷◌, length, arith, true, false, some,
  add64, ltb, ≡→==, lt→ltb, le→ltb,
}
use nt_rustos.Alloc.Header.{validate}
use nt_rustos.Alloc.Memory.{Memory}
use nt_rustos.Alloc.Early.{
  State, AllocError, Result, ok, err, check_blocks, integrity_check, fuel_of,
}
use nt_rustos.Alloc.Early.Layout.{Block, size, span, Tiles, Tiles-end}
use nt_rustos.Alloc.Early.Invariant.{Inv}

pub length-span : (bs : List Block) → length bs ≤ span bs
length-span [] = omega arith
length-span (b ∷ bs) = omega (arith, length-span bs)

-- The walk over a row of sound headers goes on behind it.
check_blocks-skip :
    (m : Memory) (fuel a x e : ℕ) (bs : List Block)
    → x ≤ e
    → e < 2 ^ 64
    → Tiles m a bs x
    → check_blocks m e (length bs + fuel) a ≡ check_blocks m e fuel x
unfolding check_blocks
check_blocks-skip m fuel a x e [] h k t =
    let none_left : 0 + fuel ≡ fuel = omega arith in rw (none_left, t) refl
check_blocks-skip m fuel a x e (b ∷ bs) h k t =
    let end = Tiles-end m a x (b ∷ bs) t in
    let more : ltb a e ≡ true = lt→ltb _ _ (omega arith) in
    let next : add64 a (add64 (m.header a).size 48) ≡ a + size b + 48 = omega (arith, t.0) in
    let step : suc (length bs) + fuel ≡ suc (length bs + fuel) = omega arith in
    rw (step, more, t.2, next) (check_blocks-skip m fuel (a + size b + 48) x e bs h k t.4)

-- The verdict on a heap whose headers are sound up to the address `x`.
pub data Verdict (s : State) (x : ℕ) : Result (Unit {0}) → Type 0 where
  accepted : x ≡ s.early.heap_end → Verdict s x (ok tt)
  damaged :
      x < s.early.heap_end
      → validate (s.mem.header x) ≡ false
      → Verdict s x (err AllocError.corrupted_header)

-- A state whose headers are sound from the start of the heap to the address `x`.
module _ (s : State) (bs : List Block) (x : ℕ) (sound : Tiles s.mem s.early.heap_start bs x)
    (inside : x ≤ s.early.heap_end) (bounded : s.early.heap_end < 2 ^ 64) where
  walked : (fuel : ℕ) × (integrity_check s ≡ check_blocks s.mem s.early.heap_end (suc fuel) x)
  unfolding integrity_check
  walked =
      let few = length-span bs in
      let end = Tiles-end s.mem s.early.heap_start x bs sound in
      let spare = s.early.heap_end - length bs in
      let enough : fuel_of s ≡ length bs + suc spare = omega arith in
      (
        spare,
        rw enough (
            check_blocks-skip s.mem (suc spare) s.early.heap_start x s.early.heap_end bs inside
              bounded sound),
      )

  -- If the headers are sound from the start of the heap to an address that is not behind its end,
  -- `integrity_check` ends, and it accepts the heap if that address is the heap's end and reports
  -- corruption if the header there is not sound.
  pub integrity_check-result : (r : Result (Unit {0})) → Verdict s x r → integrity_check s ≡ some r
  unfolding check_blocks
  integrity_check-result _ (accepted e) =
      let stop = le→ltb x s.early.heap_end (omega arith) in
      let here = ≡→== _ _ e in rw (walked.1, stop, here) refl
  integrity_check-result _ (damaged h v) = let more = lt→ltb _ _ h in rw (walked.1, more, v) refl

-- A sound heap is accepted.
pub integrity_check-Inv :
    (s : State) (bs : List Block) → Inv s bs → integrity_check s ≡ some (ok tt)
integrity_check-Inv s bs inv =
    let e : s.early.heap_end ≤ s.early.heap_end = omega arith in
    integrity_check-result s bs s.early.heap_end inv.tiles e inv.bounded _ (accepted refl)
