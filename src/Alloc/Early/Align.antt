-- ===== src/Alloc/Early/Align.antt =====
-- `calculate_aligned_addr` rounds a block's data address up to the alignment.
use nt_rustos.Common.{
  ℕ, ◌+◌, ◌-◌, ◌*◌, ◌/◌, ◌%◌, ◌^◌, ◌<◌, ◌≤◌, ◌≡◌, arith, bit_and, true, sub64, add64,
}
use native.Mathlib.Nat.{div-add-mod, mod-lt, mul_comm, mul-mod_right}
use nt_rustos.Common.Bits.{bit_and-round}
use nt_rustos.Alloc.Early.{calculate_aligned_addr, is_power_of_two}

pub pos_of_power : (n : ℕ) → is_power_of_two n ≡ true → 0 < n
pos_of_power n h = ground arith

pub mask_of_power : (n : ℕ) → is_power_of_two n ≡ true → bit_and n (n - 1) ≡ 0
mask_of_power n h = ground arith

round_mod : (x n : ℕ) → 0 < n → (x / n * n) % n ≡ 0
round_mod x n h = rw mul_comm (mul-mod_right n (x / n))

round_bounds : (x n : ℕ) → 0 < n → (x / n * n ≤ x) × (x < x / n * n + n)
round_bounds x n h = (grind (arith, div-add-mod x n), grind (arith, div-add-mod x n, mod-lt x h))

-- For a power of two, if the block's header and the alignment stay below the end of the address space, the
-- address is a multiple of the alignment, lies behind the header, and less than `align` bytes
-- behind it.
pub calculate_aligned_addr_lem :
    (block align : ℕ)
    → is_power_of_two align ≡ true
    → block + 48 + align ≤ 2 ^ 64
    → (calculate_aligned_addr block align % align ≡ 0)
      × (block + 48 ≤ calculate_aligned_addr block align)
      × (calculate_aligned_addr block align < block + 48 + align)
unfolding calculate_aligned_addr
calculate_aligned_addr_lem block align p h =
    let pos = pos_of_power align p in
    let x : ℕ = block + 48 + align - 1 in
    let whole : sub64 (add64 (add64 block 48) align) 1 ≡ x = omega arith in
    let low = round_bounds x align pos in
    let r = bit_and-round align x pos (mask_of_power align p) (omega arith) (omega arith) in
    rw (whole, r) (round_mod x align pos, omega arith, omega arith)
