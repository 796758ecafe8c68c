-- ===== src/Alloc/Walk/Agreement.antt =====
-- The two walks agree.
use Prim.Native.String.{String}
use nt_rustos.Common.{
  ℕ, suc, ◌+◌, ◌-◌, ◌^◌, ◌<◌, ◌≤◌, ◌≡◌, ◌≢◌, refl, ap, ◌∙◌, List, [], ◌∷◌, length, arith, false,
  some, none, add64, sub64, ltb, ◌==◌, ≡→==, ≢→==, ==→≡, Option, le→ltb, le→leb, lt→leb, ◌⊎◌, inl,
  inr, Bool-cases,
}
use nt_rustos.Alloc.Header.{validate, block_magic, total_size, user_data_addr}
use nt_rustos.Alloc.Memory.{Memory}
use nt_rustos.Alloc.Early.{State, Result, AllocError, ok, err, integrity_check}
use nt_rustos.Alloc.Early.Layout.{Block, size, span, Tiles, Tiles-end}
use nt_rustos.Alloc.Early.Invariant.{magic_of_validate}
use nt_rustos.Alloc.Early.Integrity.{
  Verdict, accepted, damaged, length-span, integrity_check-result,
}
use nt_rustos.Alloc.Walk.{
  BlockIterator, BlockValidator, HeapCheck, filled, broken, new, new_validator, next, total_check,
  validate_from, validate_heap,
}

-- Both walks accept, or both reject.
pub data Agrees : Result (Unit {0}) → HeapCheck → Type 0 where
  both_accept : Agrees (ok tt) filled
  both_reject : (e : AllocError) (c : HeapCheck) → c ≢ filled → Agrees (err e) c

next-magic :
    (m : Memory) (it : BlockIterator)
    → it.current < it.end
    → (m.header it.current).magic ≡ block_magic
    → next m it ≡ (
      some it.current,
      record it { current = add64 it.current (total_size (m.header it.current)) },
    )
unfolding next
next-magic m it h e = rw (lt→leb it.end it.current h, ≡→== _ _ e) refl

-- One round at a sound header.
validate_from_step :
    (m : Memory) (v : BlockValidator) (fuel a x total : ℕ) (b : Block) (bs : List Block)
    → x ≤ v.heap_end
    → v.heap_end < 2 ^ 64
    → total + span (b ∷ bs) < 2 ^ 64
    → Tiles m a (b ∷ bs) x
    → validate_from m v (suc fuel) (new a v.heap_end) total
      ≡ validate_from m v fuel (new (a + size b + 48) v.heap_end) (total + (size b + 48))
unfolding validate_from new
validate_from_step m v fuel a x total b bs h k l t =
    let end = Tiles-end m a x (b ∷ bs) t in
    let found =
      next-magic m (new a v.heap_end) (omega arith) (magic_of_validate (m.header a) t.2) in
    let inside : ltb v.heap_end (add64 (user_data_addr a) (m.header a).size) ≡ false =
      le→ltb _ _ (omega (arith, t.0, end)) in
    let width : add64 total (total_size (m.header a)) ≡ total + (size b + 48) =
      omega (arith, t.0) in
    let on : add64 a (total_size (m.header a)) ≡ a + size b + 48 = omega (arith, t.0) in
    rw (found, validate_from, t.2, inside, width, found, on) refl

-- The walk over a row of sound headers goes on behind it, with their bytes counted.
validate_from-skip :
    (m : Memory) (v : BlockValidator) (fuel a x total : ℕ) (bs : List Block)
    → x ≤ v.heap_end
    → v.heap_end < 2 ^ 64
    → total + span bs < 2 ^ 64
    → Tiles m a bs x
    → validate_from m v (length bs + fuel) (new a v.heap_end) total
      ≡ validate_from m v fuel (new x v.heap_end) (total + span bs)
validate_from-skip m v fuel a x total [] h k l t =
    let none_left : 0 + fuel ≡ fuel = omega arith in
    let none_counted : total + 0 ≡ total = omega arith in rw (none_left, none_counted, t) refl
validate_from-skip m v fuel a x total (b ∷ bs) h k l t =
    let step : suc (length bs) + fuel ≡ suc (length bs + fuel) = omega arith in
    let sum : total + (size b + 48 + span bs) ≡ total + (size b + 48) + span bs = omega arith in
    rw (step, sum)
      (validate_from_step m v (length bs + fuel) a x total b bs h k l t
        ∙ validate_from-skip m v fuel (a + size b + 48) x (total + (size b + 48)) bs h k
            (omega arith) t.4)

-- The walk stops where the iterator ends, and where a header is not sound.
validate_from_stop :
    (m : Memory) (v : BlockValidator) (fuel total : ℕ) (it : BlockIterator)
    → (next m it).0 ≡ none
    → validate_from m v (suc fuel) it total ≡ some (total_check v total)
unfolding validate_from
validate_from_stop m v fuel total it e = rw (e, validate_from) refl

validate_from_fail :
    (m : Memory) (v : BlockValidator) (fuel total : ℕ) (it : BlockIterator) (h : ℕ)
    → (next m it).0 ≡ some h
    → validate (m.header it.current) ≡ false
    → validate_from m v (suc fuel) it total ≡ some (broken "Block validation failed")
unfolding validate_from
validate_from_fail m v fuel total it h e k = rw (e, validate_from, k) refl

broken-ne-filled : (text : String) → broken text ≢ filled
broken-ne-filled text e = cc

next-none :
    (m : Memory) (it : BlockIterator)
    → (it.end ≤ it.current) ⊎ (((m.header it.current).magic == block_magic) ≡ false)
    → (next m it).0 ≡ none
unfolding next
next-none m it (inl h) = rw (le→leb it.end it.current h) refl
next-none m it (inr h) = ground arith

-- A state whose headers are sound from the start of the heap to the address `x`.
module _ (s : State) (bs : List Block) (x : ℕ) (sound : Tiles s.mem s.early.heap_start bs x)
    (inside : x ≤ s.early.heap_end) (bounded : s.early.heap_end < 2 ^ 64) where
  abbrev validator : BlockValidator
  validator = new_validator s.early.heap_start s.early.heap_end

  walked :
      (fuel : ℕ) × (validate_heap s.mem validator
        ≡ validate_from s.mem validator (suc fuel) (new x s.early.heap_end) (span bs))
  unfolding validate_heap new_validator
  walked =
      let few = length-span bs in
      let end = Tiles-end s.mem s.early.heap_start x bs sound in
      let spare = s.early.heap_end - length bs in
      let enough : suc s.early.heap_end ≡ length bs + suc spare = omega arith in
      let counted : 0 + span bs ≡ span bs = omega arith in
      (
        spare,
        rw enough (
              validate_from-skip s.mem validator (suc spare) s.early.heap_start x 0 bs inside
                bounded (omega arith) sound)
            ∙ ap (λ (k : ℕ). validate_from s.mem validator (suc spare) (new x s.early.heap_end) k)
                counted,
      )

  -- If the headers are sound from the start of the heap to an address that is not behind its end, and
  -- that is the heap's end or the header there is not sound, `validate_heap` and `integrity_check`
  -- both end, and both accept the heap or both reject it.
  pub validate_heap-Agrees :
      (r : Result (Unit {0}))
      → Verdict s x r
      → (c : HeapCheck) × (validate_heap s.mem (new_validator s.early.heap_start s.early.heap_end)
          ≡ some c)
        × (integrity_check s ≡ some r)
        × Agrees r c
  unfolding new_validator new
  validate_heap-Agrees _ (accepted e) =
      let end = Tiles-end s.mem s.early.heap_start x bs sound in
      let all : span bs ≡ sub64 s.early.heap_end s.early.heap_start = omega (arith, end, e) in
      (
        filled,
        walked.1
            ∙ validate_from_stop s.mem validator walked.0 (span bs) (new x s.early.heap_end)
                (next-none s.mem (new x s.early.heap_end) (inl (omega arith)))
            ∙ rw (≡→== _ _ all) refl,
        integrity_check-result s bs x sound inside bounded _ (accepted e),
        both_accept,
      )
  validate_heap-Agrees _ (damaged h v) = elim (Bool-cases ((s.mem.header x).magic == block_magic)) [
    | inl good ↦ (
      broken "Block validation failed",
      walked.1
          ∙ validate_from_fail s.mem validator walked.0 (span bs) (new x s.early.heap_end) x
              (ap (λ (r : Option ℕ × BlockIterator). r.0)
                (next-magic s.mem (new x s.early.heap_end) h (==→≡ _ _ good)))
              v,
      integrity_check-result s bs x sound inside bounded _ (damaged h v),
      both_reject _ _ (broken-ne-filled _),
    )
    | inr bad ↦
        let end = Tiles-end s.mem s.early.heap_start x bs sound in
        let short : span bs ≢ sub64 s.early.heap_end s.early.heap_start =
          λ e. omega (arith, end, e, h) in
        (
          broken "Heap blocks do not fill entire heap",
          walked.1
              ∙ validate_from_stop s.mem validator walked.0 (span bs) (new x s.early.heap_end)
                  (next-none s.mem (new x s.early.heap_end) (inr bad))
              ∙ rw (≢→== _ _ short) refl,
          integrity_check-result s bs x sound inside bounded _ (damaged h v),
          both_reject _ _ (broken-ne-filled _),
        )
  ]
