-- ===== src/Sbi/Tests.antt =====
-- The calls on a firmware that notes what it prints, the last character first.
use nt_rustos.Common.{
  ℕ, ◌-◌, ◌^◌, ◌≡◌, refl, List, [], ◌∷◌, ◌++◌, length, some, arith, ◌==◌, if◌then◌else◌, true,
}
use nt_rustos.Sbi.{ok, Firmware, sbi_call, decode}
use nt_rustos.Sbi.Services.{is_extension_available, probe_extension}
use nt_rustos.Sbi.Console.{putnum, convert, put_prefix, putchar, put_back}
use nt_rustos.Sbi.Numeral.{putnum-numeral_value}
use nt_rustos.Sbi.Digits.{IsBase, numeral_value, shown_prefix, emit}
use nt_rustos.Sbi.Replies.{Decoded, sbi_call-Decoded}

-- It refuses everything but the probe of an extension.
abbrev probe_or_denied : ℕ → ℕ
probe_or_denied fid = if fid == 3 then 0 else 2 ^ 64 - 4

abbrev notes : Firmware (List ℕ)
notes = record {
  ecall = λ eid fid args w. (record { error = probe_or_denied fid; value = 1 }, w);
  console_putchar = λ c w. c ∷ w;
  set_timer = λ t w. w;
  shutdown = λ w. w;
}

putnum_hex : putnum notes 48879 16 [] ≡ some (ok 6, b'f' ∷ b'e' ∷ b'e' ∷ b'b' ∷ b'x' ∷ b'0' ∷ [])
unfolding putnum convert put_prefix putchar put_back
putnum_hex = refl

putnum_zero : putnum notes 0 16 [] ≡ some (ok 1, b'0' ∷ [])
unfolding putnum putchar
putnum_zero = refl

is_extension_available_test : (is_extension_available notes 5 []).0 ≡ true
unfolding is_extension_available probe_extension sbi_call decode
is_extension_available_test = refl

putnum-numeral_value_example :
    (cs : List ℕ) × (putnum notes 48879 16 []
      ≡ some (
        ok (length (shown_prefix (b'0' ∷ b'x' ∷ []) 48879 ++ cs)),
        emit notes (shown_prefix (b'0' ∷ b'x' ∷ []) 48879 ++ cs) [],
      ))
    × (numeral_value 16 0 cs ≡ 48879)
putnum-numeral_value_example = putnum-numeral_value notes IsBase.hexadecimal 48879 [] (omega arith)

sbi_call-Decoded_example :
    Decoded (2 ^ 64 - 4) 1 (sbi_call notes 1 2 [] []).0 × ((sbi_call notes 1 2 [] []).1 ≡ [])
sbi_call-Decoded_example = sbi_call-Decoded notes 1 2 [] []
