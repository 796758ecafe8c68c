-- ===== src/Common/Masks.antt =====
-- Low masks as remainders, and disjoint bits put together.
use Prim.Native.Nat.{
  ℕ, zero, suc, ◌+◌, ◌-◌, ◌*◌, ◌/◌, ◌%◌, ◌^◌, ◌≤◌, ◌<◌, max, bit_and, bit_or, digits,
  bit_or-bitwise,
}
use mathlib.Core.Path.{◌≡◌, refl, ap, sym, ◌∙◌}
use native.Mathlib.Nat.{
  pow-suc, one-le-pow, div-add-mod, mod-lt, mul-add-mod_self_left, mod-eq_of_lt, mod-one, mul_assoc,
}
use native.Mathlib.Omega.{arith}
use nt_rustos.Common.Bits.{bit_and_step, bit_and-zero, by_halves}

-- The remainder by a power of two, from the number's half.
mod_halves : (w x : ℕ) → x % 2 ^ suc w ≡ x / 2 % 2 ^ w * 2 + x % 2
mod_halves w x =
    let p : ℕ = 2 ^ w in
    let pos : 1 ≤ p = one-le-pow w 2 (omega arith) in
    let q : ℕ = x / 2 / p in
    let r : ℕ = x / 2 % p in
    let whole : p * q + r ≡ x / 2 = div-add-mod (x / 2) p in
    let low : r < p = mod-lt (x / 2) pos in
    let double : 2 ^ suc w ≡ 2 * p = pow-suc 2 w ∙ omega arith in
    let parts : x ≡ 2 * p * q + (r * 2 + x % 2) = omega (arith, whole, mul_assoc 2 p q) in
    rw double (
      ap (λ (n : ℕ). n % (2 * p)) parts
      ∙ mul-add-mod_self_left (2 * p) q (r * 2 + x % 2)
      ∙ mod-eq_of_lt (omega arith))

-- `x & (2^w - 1)`
pub bit_and-mask : (w x : ℕ) → bit_and x (2 ^ w - 1) ≡ x % 2 ^ w
bit_and-mask zero x = bit_and-zero x ∙ sym (mod-one x)
bit_and-mask (suc w) x =
    let pos : 1 ≤ 2 ^ w = one-le-pow w 2 (omega arith) in
    let double : 2 ^ suc w ≡ 2 ^ w * 2 = pow-suc 2 w in
    let half : (2 ^ suc w - 1) / 2 ≡ 2 ^ w - 1 = omega arith in
    let odd : (2 ^ suc w - 1) % 2 ≡ 1 = omega arith in
    let rest : bit_and (x / 2) ((2 ^ suc w - 1) / 2) ≡ x / 2 % 2 ^ w =
      rw half (bit_and-mask w (x / 2)) in
    omega (arith, bit_and_step x (2 ^ suc w - 1), rest, odd, mod_halves w x)

-- The digits of `x | y`, the rest of `y` at the end.
abbrev or_up_to : ℕ → ℕ → ℕ → ℕ
or_up_to fuel x y = digits (λ rest. rest) max fuel x y

or_up_to-settled : (top fuel x y : ℕ) → fuel ≤ top → x ≤ fuel → or_up_to fuel x y ≡ or_up_to x x y
or_up_to-settled top zero zero y h k = refl
or_up_to-settled top (suc fuel) zero y h k = refl
or_up_to-settled top zero (suc x) y h k = absurd (omega arith)
or_up_to-settled zero (suc fuel) (suc x) y h k = absurd (omega arith)
or_up_to-settled (suc top) (suc fuel) (suc x) y h k =
    let long = or_up_to-settled top fuel (suc x / 2) (y / 2) (omega arith) (omega arith) in
    let short = or_up_to-settled top x (suc x / 2) (y / 2) (omega arith) (omega arith) in
    omega (arith, long, short)

zero-bit_or : (y : ℕ) → bit_or 0 y ≡ y
zero-bit_or y = bit_or-bitwise 0 y

bit_or_step : (x y : ℕ) → bit_or x y ≡ bit_or (x / 2) (y / 2) * 2 + max (x % 2) (y % 2)
bit_or_step zero y =
    let low = zero-bit_or y in let high = zero-bit_or (y / 2) in omega (arith, low, high)
bit_or_step (suc x) y =
    let low = bit_or-bitwise (suc x) y in
    let high = bit_or-bitwise (suc x / 2) (y / 2) in
    let rest = or_up_to-settled x x (suc x / 2) (y / 2) (omega arith) (omega arith) in
    omega (arith, low, high, rest)

bit_or-zero : (x : ℕ) → bit_or x 0 ≡ x
bit_or-zero x =
    by_halves (λ x. bit_or x 0 ≡ x) (zero-bit_or 0) (λ x h e. omega (arith, bit_or_step x 0, e)) x x
      (omega arith)

-- `(q << k) | r` for `r` of at most `k` bits.
pub bit_or-disjoint : (k q r : ℕ) → r < 2 ^ k → bit_or (q * 2 ^ k) r ≡ q * 2 ^ k + r
bit_or-disjoint zero q r h =
    let none_left : r ≡ 0 = omega arith in rw none_left (omega (arith, bit_or-zero (q * 2 ^ 0)))
bit_or-disjoint (suc k) q r h =
    let double : q * 2 ^ suc k ≡ q * 2 ^ k * 2 =
      ap (λ (t : ℕ). q * t) (pow-suc 2 k) ∙ sym (mul_assoc q (2 ^ k) 2) in
    let half : q * 2 ^ suc k / 2 ≡ q * 2 ^ k = omega arith in
    let even : q * 2 ^ suc k % 2 ≡ 0 = omega arith in
    let rest : bit_or (q * 2 ^ suc k / 2) (r / 2) ≡ q * 2 ^ k + r / 2 =
      rw half (bit_or-disjoint k q (r / 2) (omega (arith, pow-suc 2 k))) in
    omega (arith, bit_or_step (q * 2 ^ suc k) r, rest, even, double)
