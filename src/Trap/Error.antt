-- ===== src/Trap/Error.antt =====
-- src/trap/ds/error.rs: error codes, errors and the entries of the log.
pub mod RoundTrip
mod Tests
use Prim.Native.String.{String}
use nt_rustos.Common.{
  ℕ, ◌*◌, ◌/◌, ◌%◌, ◌^◌, bit_and, bit_or, Bool, true, false, ◌==◌, if◌then◌else◌, Option,
}

pub data ErrorLevel : Type 0 where
  fatal critical error warning info : ErrorLevel

-- `level as u8`
abbrev pub level_code : ErrorLevel → ℕ
level_code fatal = 0
level_code critical = 1
level_code error = 2
level_code warning = 3
level_code info = 4

pub data ErrorSource : Type 0 where
  unknown generic trap memory process file_system device network syscall : ErrorSource

-- `source as u8`
abbrev pub source_code : ErrorSource → ℕ
source_code unknown = 0
source_code generic = 1
source_code trap = 2
source_code memory = 3
source_code process = 4
source_code file_system = 5
source_code device = 6
source_code network = 7
source_code syscall = 8

-- `a << k` on `u32`
abbrev shl32 : ℕ → ℕ → ℕ
shl32 a k = a * 2 ^ k % 2 ^ 32

-- An `ErrorCode` is its 32 bits.
unfoldable pub new : ErrorSource → ErrorLevel → ℕ → ℕ
new source level code =
    bit_or (bit_or (shl32 (source_code source) 24) (shl32 (level_code level) 16)) code

-- `n as u8` and `n as u16`
abbrev as_u8 : ℕ → ℕ
as_u8 n = n % 2 ^ 8

abbrev as_u16 : ℕ → ℕ
as_u16 n = n % 2 ^ 16

abbrev pub source_of : ℕ → ErrorSource
source_of n =
    if n == 1
    then generic
    else if n == 2
    then trap
    else if n == 3
    then memory
    else if n == 4
    then process
    else if n == 5
    then file_system
    else if n == 6
    then device
    else if n == 7
    then network
    else if n == 8
    then syscall
    else unknown

abbrev pub level_of : ℕ → ErrorLevel
level_of n =
    if n == 0
    then fatal
    else if n == 1
    then critical
    else if n == 2
    then error
    else if n == 3
    then warning
    else if n == 4
    then info
    else error

unfoldable pub source : ℕ → ErrorSource
source bits = source_of (as_u8 (bits / 2 ^ 24))

unfoldable pub level : ℕ → ErrorLevel
level bits = level_of (as_u8 (bit_and (bits / 2 ^ 16) 0xFF))

unfoldable pub number : ℕ → ℕ
number bits = as_u16 (bit_and bits 0xFFFF)

-- `level == ErrorLevel::Fatal`, and the other comparisons by their numbers.
abbrev pub is_level : ErrorLevel → ErrorLevel → Bool
is_level a b = level_code a == level_code b

abbrev pub is_source : ErrorSource → ErrorSource → Bool
is_source a b = source_code a == source_code b

unfoldable pub is_fatal : ℕ → Bool
unfolding level
is_fatal bits = is_level (level bits) fatal

pub record SystemError : Type 0 where
  pub code : ℕ
  pub message : String
  pub address : Option ℕ
  pub instruction_pointer : ℕ
  pub timestamp : ℕ

pub data ErrorResult : Type 0 where
  handled partial unhandled : ErrorResult

pub record ErrorLogEntry : Type 0 where
  pub error : SystemError
  pub result : ErrorResult
