-- ===== src/Sbi/Digits.antt =====
-- Numerals as lists of characters, and the loop of `putnum` that makes them.
use nt_rustos.Common.{
  ℕ, zero, suc, ◌+◌, ◌-◌, ◌*◌, ◌/◌, ◌%◌, ◌^◌, ◌<◌, ◌≤◌, ◌≡◌, inl, inr, refl, ap, sym, ◌∙◌, Bool,
  true, false, ◌&&◌, ◌==◌, ltb, if◌then◌else◌, some, List, [], ◌∷◌, ◌++◌, length, ==→≡, get_or, set,
  arith, get_or-set_self, get_or-set_ne, length-set, append_assoc, not, ≢→==, zero-cases,
}
use native.Mathlib.Nat.{pow-suc}
use native.Mathlib.Decide.{ℕ_discrete}
use nt_rustos.Sbi.{Firmware}
use nt_rustos.Sbi.Console.{digit_chars, convert}

-- The value of a digit, and of a numeral read from left to right.
abbrev pub digit_value : ℕ → ℕ
digit_value c = if ltb c b'a' then c - b'0' else c - b'a' + 10

abbrev pub numeral_value : ℕ → ℕ → List ℕ → ℕ
numeral_value base n [] = n
numeral_value base n (c ∷ cs) = numeral_value base (n * base + digit_value c) cs

-- The characters are printed one after the other.
abbrev pub emit : {W : Type 0} → Firmware W → List ℕ → W → W
emit fw [] w = w
emit fw (c ∷ cs) w = emit fw cs (fw.console_putchar c w)

-- The bases that `putnum` knows, with their prefixes.
pub data IsBase : ℕ → List ℕ → Type 0 where
  octal : IsBase 8 (b'0' ∷ [])
  decimal : IsBase 10 []
  hexadecimal : IsBase 16 (b'0' ∷ b'x' ∷ [])

pub known_base :
    {base : ℕ} {chars : List ℕ}
    → IsBase base chars
    → not (base == 8) && (not (base == 10) && not (base == 16)) ≡ false
known_base octal = refl
known_base decimal = refl
known_base hexadecimal = refl

pub length-IsBase : {base : ℕ} {chars : List ℕ} → IsBase base chars → length chars ≤ 2
length-IsBase octal = omega arith
length-IsBase decimal = omega arith
length-IsBase hexadecimal = omega arith

-- 0 has no prefix.
abbrev pub shown_prefix : List ℕ → ℕ → List ℕ
shown_prefix chars num = if num == 0 then [] else chars

pub shown_prefix-above_zero : (chars : List ℕ) (num : ℕ) → 0 < num → shown_prefix chars num ≡ chars
shown_prefix-above_zero chars num h = rw (≢→== num 0 (λ z. omega (arith, z))) refl

-- What the conversion needs of a base: the digits of a table, and division that gets smaller.
pub record Converts (base : ℕ) : Type 0 where
  table : (k : ℕ) → k < base → digit_value (get_or (digit_chars base) k 0) ≡ k
  enough : length (digit_chars base) ≡ base
  low : (n : ℕ) → n % base < base
  parts : (n : ℕ) → n / base * base + n % base ≡ n
  halves : (n : ℕ) → 0 < n → 2 * (n / base) ≤ n

-- A test that holds for each number below a bound.
abbrev each_below : ℕ → (ℕ → Bool) → Bool
each_below zero p = true
each_below (suc n) p = p n && each_below n p

and-left : (a b : Bool) → (a && b) ≡ true → a ≡ true
and-left a b h = ground arith

and-right : (a b : Bool) → (a && b) ≡ true → b ≡ true
and-right a b h = ground arith

each_below-lt : (n : ℕ) (p : ℕ → Bool) (k : ℕ) → each_below n p ≡ true → k < n → p k ≡ true
each_below-lt zero p k h l = absurd (omega arith)
each_below-lt (suc n) p k h l =
    let first = and-left (p n) _ h in
    let rest = and-right (p n) _ h in
    elim (ℕ_discrete k n) [
      | yes e ↦ rw e first
      | no e ↦ each_below-lt n p k rest (omega (arith, e))
    ]

abbrev digit_fits : ℕ → ℕ → Bool
digit_fits base k = digit_value (get_or (digit_chars base) k 0) == k

pub Converts-IsBase : {base : ℕ} {chars : List ℕ} → IsBase base chars → Converts base
Converts-IsBase octal = record {
  table = λ k l. ==→≡ _ _ (each_below-lt 8 (digit_fits 8) k refl l);
  enough = refl;
  low = λ n. omega arith;
  parts = λ n. omega arith;
  halves = λ n h. omega arith;
}
Converts-IsBase decimal = record {
  table = λ k l. ==→≡ _ _ (each_below-lt 10 (digit_fits 10) k refl l);
  enough = refl;
  low = λ n. omega arith;
  parts = λ n. omega arith;
  halves = λ n h. omega arith;
}
Converts-IsBase hexadecimal = record {
  table = λ k l. ==→≡ _ _ (each_below-lt 16 (digit_fits 16) k refl l);
  enough = refl;
  low = λ n. omega arith;
  parts = λ n. omega arith;
  halves = λ n h. omega arith;
}

numeral_value-append :
    (base n : ℕ) (cs : List ℕ) (c : ℕ)
    → numeral_value base n (cs ++ (c ∷ [])) ≡ numeral_value base n cs * base + digit_value c
numeral_value-append base n [] c = refl
numeral_value-append base n (x ∷ cs) c = numeral_value-append base (n * base + digit_value x) cs c

-- The first `i` places of the buffer from the last to the first.
abbrev pub back_from : List ℕ → ℕ → List ℕ
back_from buf zero = []
back_from buf (suc i) = get_or buf i 0 ∷ back_from buf i

back_from-set : (buf : List ℕ) (i j c : ℕ) → i ≤ j → back_from (set buf j c) i ≡ back_from buf i
back_from-set buf zero j c h = refl
back_from-set buf (suc i) j c h =
    rw
      (
        back_from-set buf i j c (omega arith),
        get_or-set_ne buf {i = j} {j = i} c 0 (λ e. omega (arith, e)),
      )
      refl

back_from-written :
    (buf : List ℕ) (i c : ℕ)
    → i < length buf
    → back_from (set buf i c) (suc i) ≡ c ∷ back_from buf i
back_from-written buf i c h =
    rw (get_or-set_self buf i c 0 h, back_from-set buf i i c (omega arith)) refl

pub length-back_from : (buf : List ℕ) (i : ℕ) → length (back_from buf i) ≡ i
length-back_from buf zero = refl
length-back_from buf (suc i) = ap suc (length-back_from buf i)

-- The conversion ends, and puts the digits of `n` in the buffer, the lowest first.
pub convert-value :
    {base : ℕ} (k : Converts base) (fuel n i : ℕ) (buf : List ℕ)
    → n < 2 ^ fuel
    → fuel + i ≤ length buf
    → (cs : List ℕ) × (j : ℕ) × (buf' : List ℕ) × (convert
          (suc fuel)
          (digit_chars base)
          base
          n
          i
          buf
        ≡ some (j, buf'))
      × (back_from buf' j ≡ cs ++ back_from buf i)
      × (numeral_value base 0 cs ≡ n)
      × (j ≤ fuel + i)
unfolding convert
convert-value {base = base} k zero n i buf h l =
    ([], i, buf, ground arith, refl, omega arith, omega arith)
convert-value {base = base} k (suc fuel) n i buf h l = elim (zero-cases n) [
  | inl z ↦ ([], i, buf, ground arith, refl, sym z, omega arith)
  | inr pos ↦
      let c = get_or (digit_chars base) (n % base) 0 in
      let (cs, j, buf', e, b, v, le) =
        convert-value k fuel (n / base) (suc i) (set buf i c)
          (omega (arith, k.halves n pos, h, pow-suc 2 fuel))
          (rw (length-set buf i c) (omega arith)) in
      (
        cs ++ (c ∷ []),
        j,
        buf',
        grind (arith, e, k.low n, k.enough),
        b
            ∙ rw
                (
                  back_from-written buf i c (omega arith),
                  append_assoc cs (c ∷ []) (back_from buf i),
                )
                refl,
        numeral_value-append base 0 cs c ∙ rw (v, k.table (n % base) (k.low n)) (k.parts n),
        omega (arith, le),
      )
]
