-- ===== src/Common/Bits.antt =====
-- Bit masks as arithmetic, at every width.
use Prim.Native.Nat.{
  ℕ, zero, suc, ◌+◌, ◌-◌, ◌*◌, ◌/◌, ◌%◌, ◌^◌, ◌≤◌, ◌<◌, min, bit_and, digits, bit_and-bitwise,
}
use mathlib.Core.Path.{◌≡◌, refl, ap, sym, ◌∙◌}
use native.Mathlib.Decide.{ℕ_discrete, dec_lt}
use native.Mathlib.Nat.{
  pow-suc, one-le-pow, pow-le-pow_right, pow-zero, mul_assoc, add-suc, add-zero, div-add-mod,
  div-lt_iff_lt-mul, mod-lt,
}
use native.Mathlib.Omega.{arith}

-- The digits of `x & y` from the lowest up, at most `fuel` of them.
abbrev and_up_to : ℕ → ℕ → ℕ → ℕ
and_up_to fuel x y = digits (λ rest. 0) min fuel x y

-- A number has no more digits than its own value, so fuel beyond that changes nothing.
and_up_to-settled :
    (top fuel x y : ℕ) → fuel ≤ top → x ≤ fuel → and_up_to fuel x y ≡ and_up_to x x y
and_up_to-settled top zero zero y h k = refl
and_up_to-settled top (suc fuel) zero y h k = refl
and_up_to-settled top zero (suc x) y h k = absurd (omega arith)
and_up_to-settled zero (suc fuel) (suc x) y h k = absurd (omega arith)
and_up_to-settled (suc top) (suc fuel) (suc x) y h k =
    let long = and_up_to-settled top fuel (suc x / 2) (y / 2) (omega arith) (omega arith) in
    let short = and_up_to-settled top x (suc x / 2) (y / 2) (omega arith) (omega arith) in
    omega (arith, long, short)

pub bit_and_step : (x y : ℕ) → bit_and x y ≡ bit_and (x / 2) (y / 2) * 2 + min (x % 2) (y % 2)
bit_and_step zero y =
    let low = bit_and-bitwise 0 y in
    let high = bit_and-bitwise 0 (y / 2) in omega (arith, low, high)
bit_and_step (suc x) y =
    let low = bit_and-bitwise (suc x) y in
    let high = bit_and-bitwise (suc x / 2) (y / 2) in
    let rest = and_up_to-settled x x (suc x / 2) (y / 2) (omega arith) (omega arith) in
    omega (arith, low, high, rest)

-- What holds of 0 and passes from the half of a number to the number holds of every number.
pub by_halves {ℓ} :
    (P : ℕ → Type ℓ) → P 0 → ((x : ℕ) → 0 < x → P (x / 2) → P x) → (top x : ℕ) → x ≤ top → P x
by_halves P base step top zero h = base
by_halves P base step zero (suc x) h = absurd (omega arith)
by_halves P base step (suc top) (suc x) h =
    step (suc x) (omega arith) (by_halves P base step top (suc x / 2) (omega arith))

pub bit_and-zero : (x : ℕ) → bit_and x 0 ≡ 0
bit_and-zero x =
    by_halves (λ x. bit_and x 0 ≡ 0) (bit_and-bitwise 0 0)
      (λ x h e. omega (arith, bit_and_step x 0, e)) x x (omega arith)

double_pow : (q k : ℕ) → q * 2 ^ suc k ≡ 2 * (q * 2 ^ k)
double_pow q k = omega (arith, ap (λ (t : ℕ). q * t) (pow-suc 2 k))

-- `x & (2^w - 1)` is `x` where it fits `w` bits.
bit_and-ones : (w x : ℕ) → x < 2 ^ w → bit_and x (2 ^ w - 1) ≡ x
bit_and-ones zero x h = omega (arith, bit_and-zero x)
bit_and-ones (suc w) x h = ground (
  arith,
  bit_and_step x (2 ^ suc w - 1),
  pow-suc 2 w,
  one-le-pow w 2,
  bit_and-ones w (x / 2) (omega (arith, pow-suc 2 w)),
)

-- `x & !(2^k - 1)` in a word of `w + k` bits clears the `k` low bits.
pub bit_and-high :
    (k w q r : ℕ)
    → q < 2 ^ w
    → r < 2 ^ k
    → bit_and (q * 2 ^ k + r) ((2 ^ w - 1) * 2 ^ k) ≡ q * 2 ^ k
bit_and-high zero w q r hq hr = ground (arith, bit_and-ones w q hq)
bit_and-high (suc k) w q r hq hr = ground (
  arith,
  bit_and_step (q * 2 ^ suc k + r) ((2 ^ w - 1) * 2 ^ suc k),
  double_pow q k,
  double_pow (2 ^ w - 1) k,
  pow-suc 2 k,
  bit_and-high k w q (r / 2) hq (omega (arith, pow-suc 2 k)),
)

bit_and_self : (x : ℕ) → bit_and x x ≡ x
bit_and_self x =
    by_halves (λ x. bit_and x x ≡ x) (bit_and-bitwise 0 0)
      (λ x h e. omega (arith, bit_and_step x x, e)) x x (omega arith)

-- `n & (n - 1)` is 0 for the powers of two alone.
pow_of_bit_and : (fuel n : ℕ) → n ≤ fuel → 0 < n → bit_and n (n - 1) ≡ 0 → (k : ℕ) × (n ≡ 2 ^ k)
pow_of_bit_and zero n h pos e = absurd (omega arith)
pow_of_bit_and (suc fuel) n h pos e = elim (ℕ_discrete (n % 2) 0) [
  | yes even ↦
      let same : (n - 1) / 2 ≡ n / 2 - 1 = omega arith in
      let less : bit_and (n / 2) (n / 2 - 1) ≡ 0 =
        rw (← same) (omega (arith, bit_and_step n (n - 1))) in
      let (k, p) = pow_of_bit_and fuel (n / 2) (omega arith) (omega arith) less in
      (suc k, omega (arith, pow-suc 2 k))
  | no odd ↦
      let same : (n - 1) / 2 ≡ n / 2 = omega arith in
      let half : bit_and (n / 2) ((n - 1) / 2) ≡ 0 = omega (arith, bit_and_step n (n - 1)) in
      let half' : bit_and (n / 2) (n / 2) ≡ 0 = rw same at half in
      (0, omega (arith, bit_and_self (n / 2)))
]

pub pow_of_two : (n : ℕ) → 0 < n → bit_and n (n - 1) ≡ 0 → (k : ℕ) × (n ≡ 2 ^ k)
pow_of_two n = pow_of_bit_and n n (omega arith)

pow-add : (w k : ℕ) → 2 ^ (w + k) ≡ 2 ^ w * 2 ^ k
pow-add w zero = simp (add-zero, pow-zero) (omega arith)
pow-add w (suc k) = simp (add-suc, pow-suc, pow-add w k, mul_assoc)

-- Below 2^64 the power of two has an exponent of at most 63.
pow_small : (k : ℕ) → 2 ^ k < 2 ^ 64 → k < 64
pow_small k h = elim (dec_lt k 64) [
  | yes p ↦ p
  | no p ↦
      absurd (omega (arith, pow-le-pow_right {n = 2} (omega arith) {i = 64} {j = k} (omega arith)))
]

mask_mul : (q p m : ℕ) → 1 ≤ p → 1 ≤ q → q * p ≡ m → m - 1 - (p - 1) ≡ (q - 1) * p
mask_mul zero p m h k e = absurd (omega arith)
mask_mul (suc q) p m h k e = let less : suc q - 1 ≡ q = omega arith in rw less (omega arith)

round_pow :
    (w k x : ℕ) → w + k ≡ 64 → x < 2 ^ 64 → bit_and x (2 ^ 64 - 1 - (2 ^ k - 1)) ≡ x / 2 ^ k * 2 ^ k
round_pow w k x e h =
    let whole : 2 ^ w * 2 ^ k ≡ 2 ^ 64 = sym (pow-add w k) ∙ ap (λ (t : ℕ). 2 ^ t) e in
    let mask : 2 ^ 64 - 1 - (2 ^ k - 1) ≡ (2 ^ w - 1) * 2 ^ k =
      mask_mul (2 ^ w) (2 ^ k) (2 ^ 64) (one-le-pow k 2 (omega arith))
        (one-le-pow w 2 (omega arith)) whole in
    let parts : x ≡ x / 2 ^ k * 2 ^ k + x % 2 ^ k = grind (arith, div-add-mod x (2 ^ k)) in
    let fits : x / 2 ^ k < 2 ^ w =
      (div-lt_iff_lt-mul (one-le-pow k 2 (omega arith))).1 (rw whole h) in
    let low : x % 2 ^ k < 2 ^ k = mod-lt x (one-le-pow k 2 (omega arith)) in
    cc (mask, parts, bit_and-high k w (x / 2 ^ k) (x % 2 ^ k) fits low)

-- In a 64-bit word, `x & !(n - 1)` for a power of two `n` is `x` rounded down to a multiple of `n`.
pub bit_and-round :
    (n x : ℕ)
    → 0 < n
    → bit_and n (n - 1) ≡ 0
    → n < 2 ^ 64
    → x < 2 ^ 64
    → bit_and x (2 ^ 64 - 1 - (n - 1)) ≡ x / n * n
bit_and-round n x pos e hn hx =
    let (k, p) = pow_of_two n pos e in
    let small = pow_small k (rw (← p) hn) in rw p (round_pow (64 - k) k x (omega arith) hx)
