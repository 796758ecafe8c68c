-- ===== src/Sbi.antt =====
-- src/util/sbi/api.rs: the calls of the SBI firmware. The firmware is a parameter: what it does with
-- a call, as a function of a state of its own.
pub mod Services
pub mod Console
pub mod Replies
pub mod Digits
pub mod Numeral
mod Tests
use nt_rustos.Common.{ℕ, ◌-◌, ◌^◌, Bool, ◌==◌, if◌then◌else◌, List, [], ◌∷◌}

pub data SbiError : Type 0 where
  success failed not_supported invalid_param denied invalid_address already_available
        already_started already_stopped :
      SbiError

-- The discriminants, as words.
unfoldable pub code : SbiError → ℕ
code success = 0
code failed = 2 ^ 64 - 1
code not_supported = 2 ^ 64 - 2
code invalid_param = 2 ^ 64 - 3
code denied = 2 ^ 64 - 4
code invalid_address = 2 ^ 64 - 5
code already_available = 2 ^ 64 - 6
code already_started = 2 ^ 64 - 7
code already_stopped = 2 ^ 64 - 8

pub data SbiResult : Type 0 where
  ok : ℕ → SbiResult
  err : SbiError → SbiResult

-- The extension ids.
abbrev pub base_id : ℕ
base_id = 0x10

abbrev pub timer_id : ℕ
timer_id = 0x54494D45

abbrev pub ipi_id : ℕ
ipi_id = 0x735049

abbrev pub rfence_id : ℕ
rfence_id = 0x52464E43

abbrev pub hsm_id : ℕ
hsm_id = 0x48534D

abbrev pub srst_id : ℕ
srst_id = 0x53525354

abbrev pub pmu_id : ℕ
pmu_id = 0x504D55

abbrev pub dbcn_id : ℕ
dbcn_id = 0x4442434E

-- The registers a0 and a1 after a call.
pub record Reply : Type 0 where
  pub error : ℕ
  pub value : ℕ

-- The firmware: `ecall` with a7, a6 and a0 to a5, and the legacy calls that the crate `sbi_rt` makes.
pub record Firmware (W : Type 0) : Type 0 where
  pub ecall : ℕ → ℕ → List ℕ → W → Reply × W
  pub console_putchar : ℕ → W → W
  pub set_timer : ℕ → W → W
  pub shutdown : W → W

-- `error` is an `isize`: -1 is the word 2^64 - 1.
unfoldable pub decode : Reply → SbiResult
decode r =
    if r.error == 0
    then ok r.value
    else if r.error == 2 ^ 64 - 1
    then err failed
    else if r.error == 2 ^ 64 - 2
    then err not_supported
    else if r.error == 2 ^ 64 - 3
    then err invalid_param
    else if r.error == 2 ^ 64 - 4
    then err denied
    else if r.error == 2 ^ 64 - 5
    then err invalid_address
    else if r.error == 2 ^ 64 - 6
    then err already_available
    else if r.error == 2 ^ 64 - 7
    then err already_started
    else if r.error == 2 ^ 64 - 8
    then err already_stopped
    else err failed

unfoldable pub sbi_call : {W : Type 0} → Firmware W → ℕ → ℕ → List ℕ → W → SbiResult × W
sbi_call fw eid fid args w = let r = fw.ecall eid fid args w in (decode r.0, r.1)
