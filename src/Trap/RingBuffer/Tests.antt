-- ===== src/Trap/RingBuffer/Tests.antt =====
-- A ring buffer of two slots.
use nt_rustos.Common.{ℕ, suc, ◌≡◌, refl, [], ◌∷◌, none, arith}
use nt_rustos.Trap.RingBuffer.{RingBuffer, empty_buffer, push, iter, collect}
use nt_rustos.Trap.RingBuffer.Refine.{Holds, empty_buffer-Holds}
use nt_rustos.Trap.RingBuffer.Views.{push_op, step, step-refines, iter-elements, push-Holds}

abbrev two_slots : RingBuffer ℕ
two_slots = push 2 (push 1 (empty_buffer 2))

two_slots-Holds : Holds two_slots (1 ∷ 2 ∷ [])
unfolding push
two_slots-Holds =
    push-Holds 2 (push 1 (empty_buffer 2)) (1 ∷ [])
      (push-Holds 1 (empty_buffer 2) [] (empty_buffer-Holds 2 (omega arith) (omega arith)))

-- The third element takes the place of the first.
overwritten : collect 3 (push 3 two_slots) (iter (push 3 two_slots)) ≡ 2 ∷ 3 ∷ []
unfolding push collect
overwritten = refl

step-refines_example :
    ((step (push_op 3) two_slots).0 ≡ none)
    × Holds ((step (push_op 3) two_slots).1) (2 ∷ 3 ∷ [])
    × ((step (push_op 3) two_slots).1.capacity ≡ two_slots.capacity)
unfolding push
step-refines_example = step-refines (push_op 3) two_slots (1 ∷ 2 ∷ []) two_slots-Holds

iter-elements_example : collect (suc two_slots.count) two_slots (iter two_slots) ≡ 1 ∷ 2 ∷ []
iter-elements_example = iter-elements two_slots (1 ∷ 2 ∷ []) two_slots-Holds
