-- ===== src/Kernel/Bss.antt =====
-- What `clear_bss` clears.
use nt_rustos.Common.{
  ℕ, zero, suc, ◌+◌, ◌≤◌, ◌≡◌, ◌∙◌, Bool, not, ◌&&◌, ◌==◌, ltb, leb, if◌then◌else◌, arith,
  Bool-cases, inl, inr,
}
use nt_rustos.Kernel.{zero_range, clear_bss}

-- An address from `from` on and below `to`.
abbrev pub within : ℕ → ℕ → ℕ → Bool
within from to a = leb from a && ltb a to

zero_range-within :
    (count from : ℕ) (bytes : ℕ → ℕ) (a : ℕ)
    → zero_range count from bytes a ≡ (if within from (from + count) a then 0 else bytes a)
unfolding zero_range
zero_range-within zero from bytes a = ground arith
zero_range-within (suc count) from bytes a =
    zero_range-within count (suc from) (λ a. if a == from then 0 else bytes a) a ∙ ground arith

-- `clear_bss` sets the bytes of the section that lie outside the stack to 0, and no others.
pub clear_bss-within :
    (bss_start bss_end stack_bottom stack_top : ℕ) (bytes : ℕ → ℕ) (a : ℕ)
    → stack_bottom ≤ stack_top
    → clear_bss bss_start bss_end stack_bottom stack_top bytes a
      ≡ (if within bss_start bss_end a && not (within stack_bottom stack_top a) then 0 else bytes a)
unfolding clear_bss
clear_bss-within bss_start bss_end stack_bottom stack_top bytes a h =
    elim (Bool-cases (ltb bss_start stack_bottom)) [
      | inl low ↦ elim (Bool-cases (ltb stack_top bss_end)) [
        | inl high ↦
            rw (low, high, zero_range-within _ _ _ a, zero_range-within _ _ _ a) (ground arith)
        | inr high ↦ rw (low, high, zero_range-within _ _ _ a) (ground arith)
      ]
      | inr low ↦ elim (Bool-cases (ltb stack_top bss_end)) [
        | inl high ↦ rw (low, high, zero_range-within _ _ _ a) (ground arith)
        | inr high ↦ rw (low, high) (ground arith)
      ]
    ]
