-- ===== src/Trap/Error/RoundTrip.antt =====
-- An error code keeps what it is made of.
use nt_rustos.Common.{ℕ, ◌+◌, ◌*◌, ◌/◌, ◌%◌, ◌^◌, ◌<◌, ◌≤◌, ◌≡◌, refl, ◌∙◌, ap, arith, bit_and}
use nt_rustos.Common.Masks.{bit_and-mask, bit_or-disjoint}
use nt_rustos.Trap.Error.{
  ErrorLevel, ErrorSource, level_code, source_code, source_of, level_of, new, source, level, number,
  is_fatal, is_level,
}

source_code-le : (s : ErrorSource) → source_code s ≤ 8
source_code-le ErrorSource.unknown = omega arith
source_code-le ErrorSource.generic = omega arith
source_code-le ErrorSource.trap = omega arith
source_code-le ErrorSource.memory = omega arith
source_code-le ErrorSource.process = omega arith
source_code-le ErrorSource.file_system = omega arith
source_code-le ErrorSource.device = omega arith
source_code-le ErrorSource.network = omega arith
source_code-le ErrorSource.syscall = omega arith

source_of-source_code : (s : ErrorSource) → source_of (source_code s) ≡ s
source_of-source_code ErrorSource.unknown = refl
source_of-source_code ErrorSource.generic = refl
source_of-source_code ErrorSource.trap = refl
source_of-source_code ErrorSource.memory = refl
source_of-source_code ErrorSource.process = refl
source_of-source_code ErrorSource.file_system = refl
source_of-source_code ErrorSource.device = refl
source_of-source_code ErrorSource.network = refl
source_of-source_code ErrorSource.syscall = refl

level_code-le : (l : ErrorLevel) → level_code l ≤ 4
level_code-le ErrorLevel.fatal = omega arith
level_code-le ErrorLevel.critical = omega arith
level_code-le ErrorLevel.error = omega arith
level_code-le ErrorLevel.warning = omega arith
level_code-le ErrorLevel.info = omega arith

level_of-level_code : (l : ErrorLevel) → level_of (level_code l) ≡ l
level_of-level_code ErrorLevel.fatal = refl
level_of-level_code ErrorLevel.critical = refl
level_of-level_code ErrorLevel.error = refl
level_of-level_code ErrorLevel.warning = refl
level_of-level_code ErrorLevel.info = refl

-- The three parts stand side by side.
new_parts :
    (s : ErrorSource) (l : ErrorLevel) (c : ℕ)
    → c < 2 ^ 16
    → new s l c ≡ source_code s * 2 ^ 24 + level_code l * 2 ^ 16 + c
unfolding new
new_parts s l c h =
    let hs = source_code-le s in
    let hl = level_code-le l in
    let high : source_code s * 2 ^ 24 % 2 ^ 32 ≡ source_code s * 2 ^ 24 = omega arith in
    let middle : level_code l * 2 ^ 16 % 2 ^ 32 ≡ level_code l * 2 ^ 16 = omega arith in
    let upper = bit_or-disjoint 24 (source_code s) (level_code l * 2 ^ 16) (omega arith) in
    let shift : source_code s * 2 ^ 24 + level_code l * 2 ^ 16
        ≡ (source_code s * 2 ^ 8 + level_code l) * 2 ^ 16 =
      omega arith in
    rw (high, middle, upper, shift) (bit_or-disjoint 16 (source_code s * 2 ^ 8 + level_code l) c h)

-- `source`, `level` and `number` give back the parts of an error code, and it is fatal exactly if
-- its level is.
pub new_round_trip :
    (s : ErrorSource) (l : ErrorLevel) (c : ℕ)
    → c < 2 ^ 16
    → (source (new s l c) ≡ s)
      × (level (new s l c) ≡ l)
      × (number (new s l c) ≡ c)
      × (is_fatal (new s l c) ≡ is_level l ErrorLevel.fatal)
      × (new s l c < 2 ^ 32)
unfolding source level number is_fatal
new_round_trip s l c h =
    let parts = new_parts s l c h in
    let hs = source_code-le s in
    let hl = level_code-le l in
    let top : new s l c / 2 ^ 24 % 2 ^ 8 ≡ source_code s = omega arith in
    let mask = bit_and-mask 8 (new s l c / 2 ^ 16) in
    let middle : bit_and (new s l c / 2 ^ 16) 0xFF % 2 ^ 8 ≡ level_code l = omega arith in
    let low = bit_and-mask 16 (new s l c) in
    let small : bit_and (new s l c) 0xFFFF % 2 ^ 16 ≡ c = omega arith in
    let same_level = ap level_of middle ∙ level_of-level_code l in
    (
      ap source_of top ∙ source_of-source_code s,
      same_level,
      small,
      ap (λ k. is_level k ErrorLevel.fatal) same_level,
      omega arith,
    )
