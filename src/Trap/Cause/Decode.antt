-- ===== src/Trap/Cause/Decode.antt =====
-- The meaning of every word in `scause`.
use nt_rustos.Common.{
  ℕ, ◌+◌, ◌-◌, ◌/◌, ◌%◌, ◌^◌, ◌<◌, ◌≡◌, ◌≢◌, ◌⊎◌, inl, inr, refl, ap, sym, ◌∙◌, arith, bit_and,
  ◌==◌, true, false, some, Bool-cases, ==→≡, ≢→==, zero-cases,
}
use nt_rustos.Common.Masks.{bit_and-mask}
use nt_rustos.Trap.Cause.{
  TrapType, Interrupt, count, Exception, interrupt_code, exception_code, from_index, is_interrupt,
  code, to_trap_type, interrupt_type, exception_type,
}

-- What a trap is, by the privileged architecture's names.
pub data Trap : Type 0 where
  interrupt : Interrupt → Trap
  exception : Exception → Trap

-- The word that the hardware leaves in `scause`: the top bit is set for an interrupt.
abbrev pub word_of : Trap → ℕ
word_of (interrupt i) = 2 ^ 63 + interrupt_code i
word_of (exception e) = exception_code e

-- The trap's name among the trap types. Both calls of the environment are system calls.
abbrev pub type_of : Trap → TrapType
type_of (interrupt Interrupt.supervisor_soft) = TrapType.software_interrupt
type_of (interrupt Interrupt.supervisor_timer) = TrapType.timer_interrupt
type_of (interrupt Interrupt.supervisor_external) = TrapType.external_interrupt
type_of (exception Exception.instruction_misaligned) = TrapType.instruction_misaligned
type_of (exception Exception.instruction_fault) = TrapType.instruction_access_fault
type_of (exception Exception.illegal_instruction) = TrapType.illegal_instruction
type_of (exception Exception.breakpoint) = TrapType.breakpoint
type_of (exception Exception.load_misaligned) = TrapType.load_misaligned
type_of (exception Exception.load_fault) = TrapType.load_access_fault
type_of (exception Exception.store_misaligned) = TrapType.store_misaligned
type_of (exception Exception.store_fault) = TrapType.store_access_fault
type_of (exception Exception.user_env_call) = TrapType.system_call
type_of (exception Exception.supervisor_env_call) = TrapType.system_call
type_of (exception Exception.instruction_page_fault) = TrapType.instruction_page_fault
type_of (exception Exception.load_page_fault) = TrapType.load_page_fault
type_of (exception Exception.store_page_fault) = TrapType.store_page_fault

-- `code` and `is_interrupt` take a 64-bit word apart: the top bit and the rest.
cause_parts :
    (bits : ℕ)
    → bits < 2 ^ 64
    → (code bits ≡ bits % 2 ^ 63)
      × ((is_interrupt bits ≡ true) × (bits ≡ 2 ^ 63 + code bits)
          ⊎ (is_interrupt bits ≡ false) × (bits ≡ code bits))
unfolding code is_interrupt
cause_parts bits h =
    let mask : bit_and bits (2 ^ 64 - 1 - 2 ^ 63) ≡ bits % 2 ^ 63 = bit_and-mask 63 bits in
    let one : bit_and (bits / 2 ^ 63) 1 ≡ bits / 2 ^ 63 % 2 = bit_and-mask 1 (bits / 2 ^ 63) in
    (
      mask,
      elim (zero-cases (bits / 2 ^ 63 % 2)) [
        | inl e ↦ inr (rw (one, e) refl, omega arith)
        | inr p ↦
            let live : (bits / 2 ^ 63 % 2 == 0) ≡ false = ≢→== _ _ (λ e. omega arith) in
            inl (rw (one, live) refl, omega arith)
      ],
    )

-- Every trap of the architecture is decoded to its own type.
pub to_trap_type-word_of : (t : Trap) → to_trap_type (word_of t) ≡ type_of t
unfolding to_trap_type code is_interrupt
to_trap_type-word_of (interrupt Interrupt.supervisor_soft) = refl
to_trap_type-word_of (interrupt Interrupt.supervisor_timer) = refl
to_trap_type-word_of (interrupt Interrupt.supervisor_external) = refl
to_trap_type-word_of (exception Exception.instruction_misaligned) = refl
to_trap_type-word_of (exception Exception.instruction_fault) = refl
to_trap_type-word_of (exception Exception.illegal_instruction) = refl
to_trap_type-word_of (exception Exception.breakpoint) = refl
to_trap_type-word_of (exception Exception.load_misaligned) = refl
to_trap_type-word_of (exception Exception.load_fault) = refl
to_trap_type-word_of (exception Exception.store_misaligned) = refl
to_trap_type-word_of (exception Exception.store_fault) = refl
to_trap_type-word_of (exception Exception.user_env_call) = refl
to_trap_type-word_of (exception Exception.supervisor_env_call) = refl
to_trap_type-word_of (exception Exception.instruction_page_fault) = refl
to_trap_type-word_of (exception Exception.load_page_fault) = refl
to_trap_type-word_of (exception Exception.store_page_fault) = refl

known_interrupt :
    (c : ℕ)
    → ((i : Interrupt) × (c ≡ interrupt_code i) × (interrupt_type c ≡ type_of (interrupt i)))
      ⊎ (interrupt_type c ≡ TrapType.unknown)
known_interrupt c = elim (Bool-cases (c == 1)) [
  | inl e0 ↦ inl (Interrupt.supervisor_soft, ==→≡ _ _ e0, rw (e0) refl)
  | inr e0 ↦ elim (Bool-cases (c == 5)) [
    | inl e1 ↦ inl (Interrupt.supervisor_timer, ==→≡ _ _ e1, rw (e0, e1) refl)
    | inr e1 ↦ elim (Bool-cases (c == 9)) [
      | inl e2 ↦ inl (Interrupt.supervisor_external, ==→≡ _ _ e2, rw (e0, e1, e2) refl)
      | inr e2 ↦ inr (rw (e0, e1, e2) refl)
    ]
  ]
]

known_exception :
    (c : ℕ)
    → ((x : Exception) × (c ≡ exception_code x) × (exception_type c ≡ type_of (exception x)))
      ⊎ (exception_type c ≡ TrapType.unknown)
known_exception c = elim (Bool-cases (c == 0)) [
  | inl e0 ↦ inl (Exception.instruction_misaligned, ==→≡ _ _ e0, rw (e0) refl)
  | inr e0 ↦ elim (Bool-cases (c == 1)) [
    | inl e1 ↦ inl (Exception.instruction_fault, ==→≡ _ _ e1, rw (e0, e1) refl)
    | inr e1 ↦ elim (Bool-cases (c == 2)) [
      | inl e2 ↦ inl (Exception.illegal_instruction, ==→≡ _ _ e2, rw (e0, e1, e2) refl)
      | inr e2 ↦ elim (Bool-cases (c == 3)) [
        | inl e3 ↦ inl (Exception.breakpoint, ==→≡ _ _ e3, rw (e0, e1, e2, e3) refl)
        | inr e3 ↦ elim (Bool-cases (c == 4)) [
          | inl e4 ↦ inl (Exception.load_misaligned, ==→≡ _ _ e4, rw (e0, e1, e2, e3, e4) refl)
          | inr e4 ↦ elim (Bool-cases (c == 5)) [
            | inl e5 ↦ inl (Exception.load_fault, ==→≡ _ _ e5, rw (e0, e1, e2, e3, e4, e5) refl)
            | inr e5 ↦ elim (Bool-cases (c == 6)) [
              | inl e6 ↦
                  inl
                    (Exception.store_misaligned, ==→≡ _ _ e6, rw (e0, e1, e2, e3, e4, e5, e6) refl)
              | inr e6 ↦ elim (Bool-cases (c == 7)) [
                | inl e7 ↦
                    inl
                      (Exception.store_fault, ==→≡ _ _ e7, rw (e0, e1, e2, e3, e4, e5, e6, e7) refl)
                | inr e7 ↦ elim (Bool-cases (c == 8)) [
                  | inl e8 ↦ inl (
                    Exception.user_env_call,
                    ==→≡ _ _ e8,
                    rw (e0, e1, e2, e3, e4, e5, e6, e7, e8) refl,
                  )
                  | inr e8 ↦ elim (Bool-cases (c == 9)) [
                    | inl e9 ↦ inl (
                      Exception.supervisor_env_call,
                      ==→≡ _ _ e9,
                      rw (e0, e1, e2, e3, e4, e5, e6, e7, e8, e9) refl,
                    )
                    | inr e9 ↦ elim (Bool-cases (c == 12)) [
                      | inl e10 ↦ inl (
                        Exception.instruction_page_fault,
                        ==→≡ _ _ e10,
                        rw (e0, e1, e2, e3, e4, e5, e6, e7, e8, e9, e10) refl,
                      )
                      | inr e10 ↦ elim (Bool-cases (c == 13)) [
                        | inl e11 ↦ inl (
                          Exception.load_page_fault,
                          ==→≡ _ _ e11,
                          rw (e0, e1, e2, e3, e4, e5, e6, e7, e8, e9, e10, e11) refl,
                        )
                        | inr e11 ↦ elim (Bool-cases (c == 15)) [
                          | inl e12 ↦ inl (
                            Exception.store_page_fault,
                            ==→≡ _ _ e12,
                            rw (e0, e1, e2, e3, e4, e5, e6, e7, e8, e9, e10, e11, e12) refl,
                          )
                          | inr e12 ↦
                              inr (rw (e0, e1, e2, e3, e4, e5, e6, e7, e8, e9, e10, e11, e12) refl)
                        ]
                      ]
                    ]
                  ]
                ]
              ]
            ]
          ]
        ]
      ]
    ]
  ]
]

-- A word is decoded as a trap of the architecture or as unknown.
to_trap_type-cases :
    (bits : ℕ)
    → bits < 2 ^ 64
    → ((t : Trap) × (bits ≡ word_of t) × (to_trap_type bits ≡ type_of t))
      ⊎ (to_trap_type bits ≡ TrapType.unknown)
unfolding to_trap_type
to_trap_type-cases bits h = elim (cause_parts bits h).1 [
  | inl (top, whole) ↦ elim (known_interrupt (code bits)) [
    | inl (i, c, t) ↦ inl (interrupt i, omega (arith, whole, c), rw top t)
    | inr n ↦ inr (rw top n)
  ]
  | inr (top, whole) ↦ elim (known_exception (code bits)) [
    | inl (x, c, t) ↦ inl (exception x, omega (arith, whole, c), rw top t)
    | inr n ↦ inr (rw top n)
  ]
]

-- The place of a trap type in its enumeration.
abbrev pub index_of : TrapType → ℕ
index_of TrapType.timer_interrupt = 0
index_of TrapType.external_interrupt = 1
index_of TrapType.software_interrupt = 2
index_of TrapType.system_call = 3
index_of TrapType.instruction_page_fault = 4
index_of TrapType.load_page_fault = 5
index_of TrapType.store_page_fault = 6
index_of TrapType.instruction_access_fault = 7
index_of TrapType.load_access_fault = 8
index_of TrapType.store_access_fault = 9
index_of TrapType.illegal_instruction = 10
index_of TrapType.breakpoint = 11
index_of TrapType.instruction_misaligned = 12
index_of TrapType.load_misaligned = 13
index_of TrapType.store_misaligned = 14
index_of TrapType.unknown = 15

-- `from_index` numbers the trap types: every type is found at its place below `count`.
pub from_index-index_of : (t : TrapType) → (from_index (index_of t) ≡ some t) × (index_of t < count)
unfolding from_index
from_index-index_of TrapType.timer_interrupt = (refl, omega arith)
from_index-index_of TrapType.external_interrupt = (refl, omega arith)
from_index-index_of TrapType.software_interrupt = (refl, omega arith)
from_index-index_of TrapType.system_call = (refl, omega arith)
from_index-index_of TrapType.instruction_page_fault = (refl, omega arith)
from_index-index_of TrapType.load_page_fault = (refl, omega arith)
from_index-index_of TrapType.store_page_fault = (refl, omega arith)
from_index-index_of TrapType.instruction_access_fault = (refl, omega arith)
from_index-index_of TrapType.load_access_fault = (refl, omega arith)
from_index-index_of TrapType.store_access_fault = (refl, omega arith)
from_index-index_of TrapType.illegal_instruction = (refl, omega arith)
from_index-index_of TrapType.breakpoint = (refl, omega arith)
from_index-index_of TrapType.instruction_misaligned = (refl, omega arith)
from_index-index_of TrapType.load_misaligned = (refl, omega arith)
from_index-index_of TrapType.store_misaligned = (refl, omega arith)
from_index-index_of TrapType.unknown = (refl, omega arith)

type_of-known : (t : Trap) → index_of (type_of t) < 15
type_of-known (interrupt Interrupt.supervisor_soft) = omega arith
type_of-known (interrupt Interrupt.supervisor_timer) = omega arith
type_of-known (interrupt Interrupt.supervisor_external) = omega arith
type_of-known (exception Exception.instruction_misaligned) = omega arith
type_of-known (exception Exception.instruction_fault) = omega arith
type_of-known (exception Exception.illegal_instruction) = omega arith
type_of-known (exception Exception.breakpoint) = omega arith
type_of-known (exception Exception.load_misaligned) = omega arith
type_of-known (exception Exception.load_fault) = omega arith
type_of-known (exception Exception.store_misaligned) = omega arith
type_of-known (exception Exception.store_fault) = omega arith
type_of-known (exception Exception.user_env_call) = omega arith
type_of-known (exception Exception.supervisor_env_call) = omega arith
type_of-known (exception Exception.instruction_page_fault) = omega arith
type_of-known (exception Exception.load_page_fault) = omega arith
type_of-known (exception Exception.store_page_fault) = omega arith

-- A 64-bit word that is the word of a trap of the architecture is decoded to that trap's type, and every
-- other word is decoded as unknown.
pub to_trap_type-known :
    (bits : ℕ)
    → bits < 2 ^ 64
    → ((t : Trap) × (bits ≡ word_of t) × (to_trap_type bits ≡ type_of t))
      ⊎ ((t : Trap) → bits ≢ word_of t) × (to_trap_type bits ≡ TrapType.unknown)
to_trap_type-known bits h = elim (to_trap_type-cases bits h) [
  | inl known ↦ inl known
  | inr n ↦ inr (
    λ t e.
        let named = sym (to_trap_type-word_of t) ∙ ap to_trap_type (sym e) ∙ n in
        omega (arith, type_of-known t, ap index_of named),
    n,
  )
]
