-- ===== src/Sbi/Replies.antt =====
-- What the answers of the firmware come to.
use nt_rustos.Common.{
  ℕ, ◌-◌, ◌^◌, ◌≡◌, ◌≢◌, ◌⊎◌, inl, inr, refl, ◌&&◌, ◌==◌, if◌then◌else◌, List, [], ◌∷◌, replicate,
  ==→≡, ==→≢, ≢→==, Bool-cases, arith,
}
use nt_rustos.Sbi.{
  SbiError, success, failed, not_supported, invalid_param, denied, invalid_address,
  already_available, already_started, already_stopped, code, SbiResult, ok, err, Reply, Firmware,
  decode, sbi_call, ipi_id, rfence_id, hsm_id,
}
use nt_rustos.Sbi.Services.{
  zero_or_failed, unwrap_or_zero, send_ipi, remote_fence_i, remote_sfence_vma,
  remote_sfence_vma_asid, hart_start, hart_stop,
}

-- The code `success` carries the value, every other code is the error of its own.
abbrev pub meaning : SbiError → ℕ → SbiResult
meaning success v = ok v
meaning e v = err e

abbrev code_test : (e : SbiError) (x : ℕ) → (x ≡ code e) ⊎ (x ≢ code e)
code_test e x = elim (Bool-cases (x == code e)) [
  | inl h ↦ inl (==→≡ x (code e) h)
  | inr h ↦ inr (==→≢ x (code e) h)
]

-- The result that belongs to the registers after a call.
pub data Decoded : ℕ → ℕ → SbiResult → Type 0 where
  known : (e : SbiError) (v : ℕ) → Decoded (code e) v (meaning e v)
  unknown : (x v : ℕ) → ((e : SbiError) → x ≢ code e) → Decoded x v (err failed)

decode-code : (e : SbiError) (v : ℕ) → decode (record { error = code e; value = v }) ≡ meaning e v
unfolding decode code
decode-code e v = ground arith

decode-unknown :
    (x v : ℕ)
    → ((e : SbiError) → x ≢ code e)
    → decode (record { error = x; value = v }) ≡ err failed
unfolding decode code
decode-unknown x v h =
    rw
      (
        ≢→== x 0 (h success),
        ≢→== x (2 ^ 64 - 1) (h failed),
        ≢→== x (2 ^ 64 - 2) (h not_supported),
        ≢→== x (2 ^ 64 - 3) (h invalid_param),
        ≢→== x (2 ^ 64 - 4) (h denied),
        ≢→== x (2 ^ 64 - 5) (h invalid_address),
        ≢→== x (2 ^ 64 - 6) (h already_available),
        ≢→== x (2 ^ 64 - 7) (h already_started),
        ≢→== x (2 ^ 64 - 8) (h already_stopped),
      )
      refl

code-cases : (x : ℕ) → ((e : SbiError) × (x ≡ code e)) ⊎ ((e : SbiError) → x ≢ code e)
code-cases x = elim (code_test success x) [
  | inl h ↦ inl (success, h)
  | inr h0 ↦ elim (code_test failed x) [
    | inl h ↦ inl (failed, h)
    | inr h1 ↦ elim (code_test not_supported x) [
      | inl h ↦ inl (not_supported, h)
      | inr h2 ↦ elim (code_test invalid_param x) [
        | inl h ↦ inl (invalid_param, h)
        | inr h3 ↦ elim (code_test denied x) [
          | inl h ↦ inl (denied, h)
          | inr h4 ↦ elim (code_test invalid_address x) [
            | inl h ↦ inl (invalid_address, h)
            | inr h5 ↦ elim (code_test already_available x) [
              | inl h ↦ inl (already_available, h)
              | inr h6 ↦ elim (code_test already_started x) [
                | inl h ↦ inl (already_started, h)
                | inr h7 ↦ elim (code_test already_stopped x) [
                  | inl h ↦ inl (already_stopped, h)
                  | inr h8 ↦ inr (λ e. elim e as (λ e. x ≢ code e) [
                    | success ↦ h0
                    | failed ↦ h1
                    | not_supported ↦ h2
                    | invalid_param ↦ h3
                    | denied ↦ h4
                    | invalid_address ↦ h5
                    | already_available ↦ h6
                    | already_started ↦ h7
                    | already_stopped ↦ h8
                  ])
                ]
              ]
            ]
          ]
        ]
      ]
    ]
  ]
]

decode-Decoded : (x v : ℕ) → Decoded x v (decode (record { error = x; value = v }))
decode-Decoded x v = elim (code-cases x) [
  | inl (e, h) ↦ rw (h, decode-code e v) (known e v)
  | inr h ↦ rw (decode-unknown x v h) (unknown x v h)
]

-- `sbi_call` makes one call and decodes each code of the specification to its own error, success to
-- the value of the call, and any other word to `failed`.
pub sbi_call-Decoded :
    {W : Type 0} (fw : Firmware W) (eid fid : ℕ) (args : List ℕ) (w : W)
    → Decoded
        (fw.ecall eid fid args w).0.error
        (fw.ecall eid fid args w).0.value
        (sbi_call fw eid fid args w).0
      × ((sbi_call fw eid fid args w).1 ≡ (fw.ecall eid fid args w).1)
unfolding sbi_call
sbi_call-Decoded fw eid fid args w =
    let r = (fw.ecall eid fid args w).0 in (decode-Decoded r.error r.value, refl)

-- What a wrapper that only reports success makes of an answer.
abbrev pub confirmed : Reply → SbiResult
confirmed r = if r.error == 0 && (r.value == 0) then ok 0 else err failed

-- What a wrapper that never fails makes of an answer.
abbrev pub value_or_zero : Reply → ℕ
value_or_zero r = if r.error == 0 then r.value else 0

zero_or_failed-confirmed : (r : Reply) → zero_or_failed (decode r) ≡ confirmed r
unfolding decode
zero_or_failed-confirmed r = ground arith

unwrap_or_zero-value : (r : Reply) → unwrap_or_zero (decode r) ≡ value_or_zero r
unfolding decode
unwrap_or_zero-value r = ground arith

module _ {W : Type 0} (fw : Firmware W) where
  -- What comes back from one call.
  abbrev answer : ℕ → ℕ → List ℕ → W → Reply
  answer eid fid args w = (fw.ecall eid fid args w).0

  -- `send_ipi`, the remote fences, `hart_start` and `hart_stop` answer 0 if the firmware answers with
  -- error 0 and value 0, and `failed` otherwise.
  pub status_calls :
      (mask start size asid hart opaque : ℕ) (w : W)
      → ((send_ipi fw mask w).0 ≡ confirmed (answer ipi_id 0 (mask ∷ 0 ∷ 0 ∷ 0 ∷ 0 ∷ 0 ∷ []) w))
        × ((remote_fence_i fw mask w).0
            ≡ confirmed (answer rfence_id 0 (mask ∷ 0 ∷ 0 ∷ 0 ∷ 0 ∷ 0 ∷ []) w))
        × ((remote_sfence_vma fw mask start size w).0
            ≡ confirmed (answer rfence_id 1 (mask ∷ start ∷ size ∷ 0 ∷ 0 ∷ 0 ∷ []) w))
        × ((remote_sfence_vma_asid fw mask start size asid w).0
            ≡ confirmed (answer rfence_id 2 (mask ∷ start ∷ size ∷ asid ∷ 0 ∷ 0 ∷ []) w))
        × ((hart_start fw hart start opaque w).0
            ≡ confirmed (answer hsm_id 0 (hart ∷ start ∷ opaque ∷ 0 ∷ 0 ∷ 0 ∷ []) w))
        × ((hart_stop fw w).0 ≡ confirmed (answer hsm_id 1 (replicate 6 0) w))
  unfolding send_ipi remote_fence_i remote_sfence_vma remote_sfence_vma_asid hart_start hart_stop
      sbi_call
  status_calls mask start size asid hart opaque w = (
    zero_or_failed-confirmed _,
    zero_or_failed-confirmed _,
    zero_or_failed-confirmed _,
    zero_or_failed-confirmed _,
    zero_or_failed-confirmed _,
    zero_or_failed-confirmed _,
  )
