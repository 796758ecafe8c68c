-- ===== src/Alloc/Service/Start.antt =====
-- `init` of the service, on every branch.
use nt_rustos.Common.{
  ℕ, ◌+◌, ◌%◌, ◌^◌, ◌<◌, ◌≤◌, ◌≡◌, ◌≢◌, ◌⊎◌, inl, inr, refl, Bool, true, false, ltb, ◌==◌, bit_and,
  some, List, [], ◌∷◌, arith, Bool-cases, zero-cases, ltb→lt, ltb→le, lt→ltb, le→ltb, lt→leb, ≢→==,
  ==→≡, ==→≢, ◌-◌,
}
use nt_rustos.Common.Masks.{bit_and-mask}
use nt_rustos.Alloc.Memory.{Memory}
use nt_rustos.Alloc.Early.{AllocError, Result, ok, err, State, fresh_state}
use nt_rustos.Alloc.Early.Layout.{Block, free_block}
use nt_rustos.Alloc.Early.Invariant.{Inv}
use nt_rustos.Alloc.Early.Integrity.{integrity_check-Inv}
use nt_rustos.Alloc.Guarded
use nt_rustos.Alloc.Guarded.{hold}
use nt_rustos.Alloc.Guarded.Guard.{unset, init_once}
use nt_rustos.Alloc.Global
use nt_rustos.Alloc.Service.{Service, init}

-- The service before `init` and after it.
abbrev pub waiting_at : Memory → Bool → Service
waiting_at m on = record { initialized = false; enabled = on; instance_ = unset m }

abbrev pub opened_at : Memory → Bool → ℕ → ℕ → Service
opened_at m on start size = record {
  initialized = true;
  enabled = on;
  instance_ = hold (fresh_state m start size);
}

-- What a first `init` with a heap of `size` bytes at `start` comes to.
pub data Opened (m : Memory) (on : Bool) (start size : ℕ)
    : Result (Unit {0}) → Service → Type 0 where
  bad_range :
      (start ≡ 0) ⊎ (size < 65536) ⊎ (2 ^ 30 < size)
      → Opened m on start size (err AllocError.invalid_parameter) (waiting_at m on)
  bad_alignment :
      0 < start
      → 65536 ≤ size
      → size ≤ 2 ^ 30
      → start % 16 ≢ 0
      → Opened m on start size (err AllocError.invalid_alignment) (waiting_at m on)
  bad_end :
      0 < start
      → 65536 ≤ size
      → size ≤ 2 ^ 30
      → start % 16 ≡ 0
      → 2 ^ 64 ≤ start + size
      → Opened m on start size (err AllocError.invalid_parameter) (waiting_at m on)
  opened :
      0 < start
      → 65536 ≤ size
      → size ≤ 2 ^ 30
      → start % 16 ≡ 0
      → start + size < 2 ^ 64
      → Inv (fresh_state m start size) (free_block (size - 48) ∷ [])
      → Opened m on start size (ok tt) (opened_at m on start size)

low_bits : (x : ℕ) → bit_and x 0xF ≡ x % 16
low_bits x = bit_and-mask 4 x

pub check-hold :
    (s : State) (bs : List Block) → Inv s bs → Global.integrity_check (hold s) ≡ some (ok tt)
unfolding Global.integrity_check Guarded.integrity_check
check-hold s bs inv = integrity_check-Inv s bs inv

module _ (m : Memory) (on : Bool) (start size : ℕ) where
  -- Every test passes for a heap in range at an aligned address.
  pub init_in_range :
      0 < start
      → 65536 ≤ size
      → size ≤ 2 ^ 30
      → start % 16 ≡ 0
      → start + size < 2 ^ 64
      → (init start size (waiting_at m on) ≡ some (ok tt, opened_at m on start size))
        × Inv (fresh_state m start size) (free_block (size - 48) ∷ [])
  unfolding init Global.init
  init_in_range pos big fit even end =
      let (open_, inv, again) = init_once m start size 0 0 (omega arith) (omega arith) end in
      (
        rw
            (
              ≢→== start 0 (λ z. omega (arith, z)),
              le→ltb size 65536 big,
              le→ltb (2 ^ 30) size fit,
              low_bits start,
              even,
              lt→ltb (start + size) (2 ^ 64) end,
              lt→leb (start + size) start (omega arith),
              open_,
              open_,
              check-hold (fresh_state m start size) (free_block (size - 48) ∷ []) inv,
            )
            refl,
        inv,
      )

  -- A first `init` refuses a heap at 0, one of less than 64 KB or more than 1 GB, one whose start is
  -- not a multiple of 16 and one that reaches the end of the address space, without a change: the third
  -- as a bad alignment, the others as a bad parameter. It sets up a sound heap in every other case.
  pub init-Opened :
      (r : Result (Unit {0})) × (v : Service) × (init start size (waiting_at m on) ≡ some (r, v))
      × Opened m on start size r v
  unfolding init
  init-Opened = elim (zero-cases start) [
    | inl z ↦ (err AllocError.invalid_parameter, waiting_at m on, ground arith, bad_range (inl z))
    | inr pos ↦
        let away = ≢→== start 0 (λ z. omega (arith, z)) in
        elim (Bool-cases (ltb size 65536)) [
          | inl h ↦ (
            err AllocError.invalid_parameter,
            waiting_at m on,
            rw (away, h) refl,
            bad_range (inr (inl (ltb→lt _ _ h))),
          )
          | inr big ↦ elim (Bool-cases (ltb (2 ^ 30) size)) [
            | inl h ↦ (
              err AllocError.invalid_parameter,
              waiting_at m on,
              rw (away, big, h) refl,
              bad_range (inr (inr (ltb→lt _ _ h))),
            )
            | inr fit ↦ elim (Bool-cases (start % 16 == 0)) [
              | inr odd ↦ (
                err AllocError.invalid_alignment,
                waiting_at m on,
                rw (away, big, fit, low_bits start, odd) refl,
                bad_alignment pos (ltb→le _ _ big) (ltb→le _ _ fit) (==→≢ _ _ odd),
              )
              | inl even ↦ elim (Bool-cases (ltb (start + size) (2 ^ 64))) [
                | inr far ↦ (
                  err AllocError.invalid_parameter,
                  waiting_at m on,
                  rw (away, big, fit, low_bits start, even, far) refl,
                  bad_end pos (ltb→le _ _ big) (ltb→le _ _ fit) (==→≡ _ _ even) (ltb→le _ _ far),
                )
                | inl near ↦
                    let b = ltb→le _ _ big in
                    let f = ltb→le _ _ fit in
                    let e = ==→≡ _ _ even in
                    let n = ltb→lt _ _ near in
                    let done = init_in_range pos b f e n in
                    (ok tt, opened_at m on start size, done.0, opened pos b f e n done.1)
              ]
            ]
          ]
        ]
  ]
