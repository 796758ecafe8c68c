-- ===== src/Trap/Cause.antt =====
-- src/trap/ds/types.rs: the trap types and what `scause` says of them. A machine word has 64 bits.
pub mod Decode
mod Tests
use nt_rustos.Common.{
  ℕ, ◌-◌, ◌/◌, ◌^◌, bit_and, Bool, not, ◌==◌, if◌then◌else◌, Option, none, some, ltb,
}

pub data TrapMode : Type 0 where
  direct vectored : TrapMode

pub data Interrupt : Type 0 where
  supervisor_soft supervisor_timer supervisor_external : Interrupt

-- `interrupt as usize`
abbrev pub interrupt_code : Interrupt → ℕ
interrupt_code supervisor_soft = 1
interrupt_code supervisor_timer = 5
interrupt_code supervisor_external = 9

pub data Exception : Type 0 where
  instruction_misaligned instruction_fault illegal_instruction breakpoint : Exception
  load_misaligned load_fault store_misaligned store_fault user_env_call : Exception
  supervisor_env_call instruction_page_fault load_page_fault store_page_fault : Exception

-- `exception as usize`
abbrev pub exception_code : Exception → ℕ
exception_code instruction_misaligned = 0
exception_code instruction_fault = 1
exception_code illegal_instruction = 2
exception_code breakpoint = 3
exception_code load_misaligned = 4
exception_code load_fault = 5
exception_code store_misaligned = 6
exception_code store_fault = 7
exception_code user_env_call = 8
exception_code supervisor_env_call = 9
exception_code instruction_page_fault = 12
exception_code load_page_fault = 13
exception_code store_page_fault = 15

pub data TrapType : Type 0 where
  timer_interrupt external_interrupt software_interrupt system_call : TrapType
  instruction_page_fault load_page_fault store_page_fault instruction_access_fault : TrapType
  load_access_fault store_access_fault illegal_instruction breakpoint : TrapType
  instruction_misaligned load_misaligned store_misaligned unknown : TrapType

abbrev pub count : ℕ
count = 16

unfoldable pub from_index : ℕ → Option TrapType
from_index index =
    if index == 0
    then some timer_interrupt
    else if index == 1
    then some external_interrupt
    else if index == 2
    then some software_interrupt
    else if index == 3
    then some system_call
    else if index == 4
    then some TrapType.instruction_page_fault
    else if index == 5
    then some TrapType.load_page_fault
    else if index == 6
    then some TrapType.store_page_fault
    else if index == 7
    then some instruction_access_fault
    else if index == 8
    then some load_access_fault
    else if index == 9
    then some store_access_fault
    else if index == 10
    then some TrapType.illegal_instruction
    else if index == 11
    then some TrapType.breakpoint
    else if index == 12
    then some TrapType.instruction_misaligned
    else if index == 13
    then some TrapType.load_misaligned
    else if index == 14
    then some TrapType.store_misaligned
    else if index == 15
    then some unknown
    else none

-- `TrapCause`, by its bits.
unfoldable pub is_interrupt : ℕ → Bool
is_interrupt bits = not (bit_and (bits / 2 ^ 63) 1 == 0)

unfoldable pub code : ℕ → ℕ
code bits = bit_and bits (2 ^ 64 - 1 - 2 ^ 63)

abbrev pub interrupt_type : ℕ → TrapType
interrupt_type c =
    if c == 1
    then software_interrupt
    else if c == 5
    then timer_interrupt
    else if c == 9
    then external_interrupt
    else unknown

abbrev pub exception_type : ℕ → TrapType
exception_type c =
    if c == 0
    then TrapType.instruction_misaligned
    else if c == 1
    then instruction_access_fault
    else if c == 2
    then TrapType.illegal_instruction
    else if c == 3
    then TrapType.breakpoint
    else if c == 4
    then TrapType.load_misaligned
    else if c == 5
    then load_access_fault
    else if c == 6
    then TrapType.store_misaligned
    else if c == 7
    then store_access_fault
    else if c == 8
    then system_call
    else if c == 9
    then system_call
    else if c == 12
    then TrapType.instruction_page_fault
    else if c == 13
    then TrapType.load_page_fault
    else if c == 15
    then TrapType.store_page_fault
    else unknown

unfoldable pub to_trap_type : ℕ → TrapType
unfolding is_interrupt code
to_trap_type bits =
    if is_interrupt bits then interrupt_type (code bits) else exception_type (code bits)
