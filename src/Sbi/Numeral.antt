-- ===== src/Sbi/Numeral.antt =====
-- Printed numbers can be read back: the loops of `putnum` against an independent reading.
use nt_rustos.Common.{
  ℕ, zero, suc, ◌+◌, ◌^◌, ◌<◌, ◌≡◌, inl, inr, refl, some, List, [], ◌∷◌, ◌++◌, length, add64_small,
  get_or, replicate, arith, length-append, append-nil, ≢→==, zero-cases,
}
use nt_rustos.Sbi.{ok, Firmware}
use nt_rustos.Sbi.Console.{putchar, puts_from, put_back, put_prefix, putnum}
use nt_rustos.Sbi.Digits.{
  numeral_value, emit, IsBase, known_base, length-IsBase, shown_prefix, shown_prefix-above_zero,
  Converts-IsBase, back_from, length-back_from, convert-value, octal, decimal, hexadecimal,
}

module _ {W : Type 0} (fw : Firmware W) where
  emit-append : (cs ds : List ℕ) (w : W) → emit fw (cs ++ ds) w ≡ emit fw ds (emit fw cs w)
  emit-append [] ds w = refl
  emit-append (c ∷ cs) ds w = emit-append cs ds (fw.console_putchar c w)

  put_back-emit :
      (buf : List ℕ) (i count : ℕ) (w : W)
      → i + count < 2 ^ 64
      → put_back fw buf i count w ≡ (ok (i + count), emit fw (back_from buf i) w)
  unfolding put_back putchar
  put_back-emit buf zero count w h = ground arith
  put_back-emit buf (suc i) count w h =
      rw
        (
          add64_small count 1 (omega arith),
          put_back-emit buf i (count + 1) (fw.console_putchar (get_or buf i 0) w) (omega arith),
        )
        (ground arith)

  put_prefix-emit :
      {base : ℕ} {chars : List ℕ} (k : IsBase base chars) (w : W)
      → put_prefix fw base w ≡ (ok (length chars), emit fw chars w)
  unfolding put_prefix putchar
  put_prefix-emit octal w = refl
  put_prefix-emit decimal w = refl
  put_prefix-emit hexadecimal w = refl

  -- The digits of a number above 0, after the prefix.
  putnum-above_zero :
      {base : ℕ} {chars : List ℕ} (k : IsBase base chars) (num : ℕ) (w : W)
      → num < 2 ^ 64
      → 0 < num
      → (cs : List ℕ) × (putnum fw num base w
          ≡ some (ok (length (chars ++ cs)), emit fw (chars ++ cs) w))
        × (numeral_value base 0 cs ≡ num)
  unfolding putnum
  putnum-above_zero {base = base} {chars = chars} k num w h pos =
      let (cs, j, buf, e, b, v, le) =
        convert-value (Converts-IsBase k) 64 num 0 (replicate 64 0) h (omega arith) in
      let small = length-IsBase k in
      (
        back_from buf j,
        rw
            (
              known_base k,
              ≢→== num 0 (λ z. omega (arith, z)),
              e,
              put_prefix-emit k w,
              put_prefix-emit k w,
              put_back-emit buf j (length chars) (emit fw chars w) (omega (arith, le, small)),
              length-append chars (back_from buf j),
              length-back_from buf j,
              emit-append chars (back_from buf j) w,
            )
            (ground arith),
        rw (b, append-nil cs) v,
      )

  putnum-zero :
      {base : ℕ} {chars : List ℕ} (k : IsBase base chars) (w : W)
      → putnum fw 0 base w ≡ some (ok 1, fw.console_putchar b'0' w)
  unfolding putnum putchar
  putnum-zero k w = rw (known_base k) refl

  -- In the bases 8, 10 and 16 `putnum` ends, prints the prefix of the base, which 0 is printed
  -- without, and then digits whose value in that base is the number, and answers how many characters
  -- these are.
  pub putnum-numeral_value :
      {base : ℕ} {chars : List ℕ} (k : IsBase base chars) (num : ℕ) (w : W)
      → num < 2 ^ 64
      → (cs : List ℕ) × (putnum fw num base w
          ≡ some (
            ok (length (shown_prefix chars num ++ cs)),
            emit fw (shown_prefix chars num ++ cs) w,
          ))
        × (numeral_value base 0 cs ≡ num)
  putnum-numeral_value {base = base} {chars = chars} k num w h = elim (zero-cases num) [
    | inl z ↦ rw z (b'0' ∷ [], putnum-zero k w, omega arith)
    | inr pos ↦ rw (shown_prefix-above_zero chars num pos) (putnum-above_zero k num w h pos)
  ]

  -- `puts` prints the characters in their order and answers their number.
  puts_from-emit :
      (s : List ℕ) (count : ℕ) (w : W)
      → length s + count < 2 ^ 64
      → puts_from fw count s w ≡ (ok (length s + count), emit fw s w)
  unfolding puts_from putchar
  puts_from-emit [] count w h = ground arith
  puts_from-emit (c ∷ s) count w h =
      rw
        (
          add64_small count 1 (omega arith),
          puts_from-emit s (count + 1) (fw.console_putchar c w) (omega arith),
        )
        (ground arith)
