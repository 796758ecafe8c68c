-- ===== src/Sbi/Console.antt =====
-- The console of src/util/sbi/api.rs, and src/console.rs on it. A character is its code point, a
-- string the list of its characters.
use nt_rustos.Common.{
  ℕ, zero, suc, ◌/◌, ◌%◌, not, ◌&&◌, ◌==◌, ltb, if◌then◌else◌, Option, none, some, List, [], ◌∷◌,
  ◌++◌, length, get_or, set, replicate, add64,
}
use nt_rustos.Sbi.{SbiResult, ok, err, not_supported, invalid_param, Firmware}

unfoldable pub getchar : SbiResult
getchar = err not_supported

-- `b"0123456789abcdef"` and its shorter fellows.
abbrev pub digit_chars : ℕ → List ℕ
digit_chars base =
    let octal = b'0' ∷ b'1' ∷ b'2' ∷ b'3' ∷ b'4' ∷ b'5' ∷ b'6' ∷ b'7' ∷ [] in
    let decimal = octal ++ (b'8' ∷ b'9' ∷ []) in
    if base == 16
    then decimal ++ (b'a' ∷ b'b' ∷ b'c' ∷ b'd' ∷ b'e' ∷ b'f' ∷ [])
    else if base == 10
    then decimal
    else octal

-- The conversion of `n` from buffer place `i` on. `none` is a write or a read out of bounds, which
-- panics, or a loop that has not ended within its fuel.
unfoldable pub convert : ℕ → List ℕ → ℕ → ℕ → ℕ → List ℕ → Option (ℕ × List ℕ)
convert zero digits base n i buf = none
convert (suc fuel) digits base n i buf =
    let char = get_or digits (n % base) 0 in
    let rest = convert fuel digits base (n / base) (suc i) (set buf i char) in
    if n == 0
    then some (i, buf)
    else if ltb i (length buf) && ltb (n % base) (length digits)
    then rest
    else none

module _ {W : Type 0} (fw : Firmware W) where
  unfoldable pub putchar : ℕ → W → SbiResult × W
  putchar ch w = (ok 0, fw.console_putchar ch w)

  -- The loop of `puts`, with the count so far; `?` leaves it with the error.
  unfoldable pub puts_from : ℕ → List ℕ → W → SbiResult × W
  puts_from count [] w = (ok count, w)
  puts_from count (ch ∷ s) w =
      let r = putchar ch w in
      elim r.0 [ ok n ↦ puts_from (add64 count 1) s r.1 | err e ↦ (err e, r.1) ]

  unfoldable pub puts : List ℕ → W → SbiResult × W
  puts s w = puts_from 0 s w

  -- The last loop of `putnum`.
  unfoldable pub put_back : List ℕ → ℕ → ℕ → W → SbiResult × W
  put_back buf zero count w = (ok count, w)
  put_back buf (suc i) count w =
      let r = putchar (get_or buf i 0) w in
      elim r.0 [ ok n ↦ put_back buf i (add64 count 1) r.1 | err e ↦ (err e, r.1) ]

  unfoldable pub put_prefix : ℕ → W → SbiResult × W
  put_prefix base w =
      if base == 16
      then (let r = putchar b'0' w in
          elim r.0 [
            | ok n ↦
                let q = putchar b'x' r.1 in elim q.0 [ ok n ↦ (ok 2, q.1) | err e ↦ (err e, q.1) ]
            | err e ↦ (err e, r.1)
          ])
      else if base == 8
      then (let r = putchar b'0' w in elim r.0 [ ok n ↦ (ok 1, r.1) | err e ↦ (err e, r.1) ])
      else (ok 0, w)

  unfoldable pub putnum : ℕ → ℕ → W → Option (SbiResult × W)
  putnum num base w =
      if not (base == 8) && (not (base == 10) && not (base == 16))
      then some (err invalid_param, w)
      else if num == 0
      then some (let r = putchar b'0' w in elim r.0 [ ok n ↦ (ok 1, r.1) | err e ↦ (err e, r.1) ])
      else elim (convert 65 (digit_chars base) base num 0 (replicate 64 0)) [
        | none ↦ none
        | some (i, buf) ↦ some (
            let r = put_prefix base w in
            elim r.0 [ ok count ↦ put_back buf i count r.1 | err e ↦ (err e, r.1) ])
      ]

  -- src/console.rs drops the result.
  unfoldable pub print_str : List ℕ → W → W
  print_str s w = (puts s w).1

  unfoldable pub print_char : ℕ → W → W
  print_char ch w = (putchar ch w).1

  unfoldable pub print_num : ℕ → W → Option W
  print_num num w = elim (putnum num 10 w) [ none ↦ none | some r ↦ some r.1 ]

  unfoldable pub print_hex : ℕ → W → Option W
  print_hex num w = elim (putnum num 16 w) [ none ↦ none | some r ↦ some r.1 ]

  unfoldable pub print_oct : ℕ → W → Option W
  print_oct num w = elim (putnum num 8 w) [ none ↦ none | some r ↦ some r.1 ]
