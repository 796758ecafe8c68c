-- ===== src/Alloc/Early/Scan.antt =====
-- `integrity_check` on any memory.
use nt_rustos.Common.{
  ℕ, zero, suc, ◌+◌, ◌-◌, ◌^◌, ◌<◌, ◌≡◌, refl, inl, inr, arith, true, false, Bool-cases, zero-cases,
  Option, some, add64, ltb, lt→ltb, ltb→lt, ltb→le, ≡→==, ≢→==,
}
use nt_rustos.Alloc.Header.{validate}
use nt_rustos.Alloc.Memory.{Memory}
use nt_rustos.Alloc.Early.{
  State, AllocError, Result, ok, err, check_blocks, integrity_check, fuel_of,
}

module _ (m : Memory) (end : ℕ) where
  -- From one address the walk comes to another, over headers that are sound.
  pub data Reaches : ℕ → ℕ → Type 0 where
    here : (a : ℕ) → Reaches a a
    over :
        (a x : ℕ)
        → a < end
        → validate (m.header a) ≡ true
        → Reaches (a + (m.header a).size + 48) x
        → Reaches a x

  -- What the walk from an address finds.
  pub data Finding (a : ℕ) : Result (Unit {0}) → Type 0 where
    whole : Reaches a end → Finding a (ok tt)
    damaged :
        (x : ℕ)
        → Reaches a x
        → x < end
        → validate (m.header x) ≡ false
        → Finding a (err AllocError.corrupted_header)
    beyond : (x : ℕ) → Reaches a x → end < x → Finding a (err AllocError.internal_error)

  Finding-over :
      (a : ℕ) (r : Result (Unit {0}))
      → a < end
      → validate (m.header a) ≡ true
      → Finding (a + (m.header a).size + 48) r
      → Finding a r
  Finding-over a _ h v (whole w) = whole (over a end h v w)
  Finding-over a _ h v (damaged x w i b) = damaged x (over a x h v w) i b
  Finding-over a _ h v (beyond x w i) = beyond x (over a x h v w) i

  abbrev Found : ℕ → Option (Result (Unit {0})) → Type 0
  Found a c = (r : Result (Unit {0})) × (c ≡ some r) × Finding a r

  -- One round of the loop, over a sound header.
  Found-over :
      (fuel a : ℕ)
      → a < end
      → validate (m.header a) ≡ true
      → a + (m.header a).size + 48 < 2 ^ 64
      → Found (a + (m.header a).size + 48) (check_blocks m end fuel (a + (m.header a).size + 48))
      → Found a (check_blocks m end (suc fuel) a)
  unfolding check_blocks
  Found-over fuel a h v small (r, e, f) =
      let next : add64 a (add64 (m.header a).size 48) ≡ a + (m.header a).size + 48 =
        omega (arith, small) in
      let more : ltb a end ≡ true = lt→ltb a end h in
      (r, rw (more, v, next, e) refl, Finding-over a r h v f)

  check_blocks-Found :
      ((x : ℕ) → x < end → validate (m.header x) ≡ true → x + (m.header x).size + 48 < 2 ^ 64)
      → (fuel a : ℕ) → end < fuel + a
      → 0 < fuel
      → Found a (check_blocks m end fuel a)
  unfolding check_blocks
  check_blocks-Found near zero a h pos = absurd (omega (arith, pos))
  check_blocks-Found near (suc fuel) a h pos = elim (Bool-cases (ltb a end)) [
    | inr stop ↦ elim (zero-cases (a - end)) [
      | inl z ↦
          let e : a ≡ end = omega (arith, ltb→le a end stop, z) in
          (ok tt, rw (stop, ≡→== a end e) refl, rw e (whole (here end)))
      | inr over_ ↦ (
        err AllocError.internal_error,
        rw (stop, ≢→== a end (λ e. omega (arith, e, over_))) refl,
        beyond a (here a) (omega (arith, over_)),
      )
    ]
    | inl more ↦
        let inside = ltb→lt a end more in
        elim (Bool-cases (validate (m.header a))) [
          | inr bad ↦
              (err AllocError.corrupted_header, rw (more, bad) refl, damaged a (here a) inside bad)
          | inl good ↦
              let small = near a inside good in
              Found-over fuel a inside good small (
                check_blocks-Found near fuel (a + (m.header a).size + 48) (omega (arith, h))
                  (omega (arith, h, inside)))
        ]
  ]

-- On any memory in which no sound header of the heap has a size that leads past the end of the
-- address space, `integrity_check` ends. It accepts the heap if sound headers lead to its end, and
-- reports a header that is not sound, or that the walk has run past the end, if they lead there.
pub integrity_check-Finding :
    (s : State)
    → ((x : ℕ)
        → x < s.early.heap_end
        → validate (s.mem.header x) ≡ true
        → x + (s.mem.header x).size + 48 < 2 ^ 64)
    → (r : Result (Unit {0})) × (integrity_check s ≡ some r)
      × Finding s.mem s.early.heap_end s.early.heap_start r
unfolding integrity_check
integrity_check-Finding s near =
    check_blocks-Found s.mem s.early.heap_end near (fuel_of s) s.early.heap_start (omega arith)
      (omega arith)
