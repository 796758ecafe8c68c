-- ===== src/Trap/RingBuffer/Views.antt =====
-- What `front`, `back` and the iterator see, and the buffer as a whole.
use native.Mathlib.Nat.{mod-eq_of_lt, add-mod_right}
use nt_rustos.Common.{
  ℕ, suc, ◌+◌, ◌-◌, ◌%◌, ◌^◌, ◌<◌, ◌≤◌, ◌≡◌, refl, ap, sym, ◌∙◌, Option, none, some, List, [], ◌∷◌,
  get_or, get_elem?, length, ◌==◌, sub64, add64, arith, true, false, ≢→==, ≡→==, zero-cases, inl,
  inr, Bool-cases, ==→≡,
}
use nt_rustos.Trap.RingBuffer.{
  RingBuffer, Iter, push, pop, front, back, clear, iter, next, collect, is_empty, is_full,
}
use nt_rustos.Trap.RingBuffer.Refine.{
  Holds, slot, step_slot, slot_next, slot_in, push_room, push_full, pop_item, empty_buffer-Holds,
  enqueue,
}

pub data Op {ℓ} (A : Type ℓ) : Type ℓ where
  push_op : A → Op A
  pop_op clear_op : Op A

-- The slot before the head.
slot_before :
    (cap t n : ℕ)
    → t < cap
    → n < cap
    → cap < 2 ^ 63
    → sub64 (add64 (slot cap t (suc n)) cap) 1 % cap ≡ slot cap t n
slot_before cap t n h k small = elim (zero-cases (slot cap t (suc n))) [
  | inl e ↦
      let last : sub64 (add64 (slot cap t (suc n)) cap) 1 ≡ cap - 1 = omega arith in
      let there : slot cap t n ≡ cap - 1 = ground arith in
      rw (last, there) (mod-eq_of_lt (omega arith))
  | inr p ↦
      let inside = slot_in cap t (suc n) h k in
      let over : sub64 (add64 (slot cap t (suc n)) cap) 1 ≡ slot cap t (suc n) - 1 + cap =
        omega arith in
      let there : slot cap t n ≡ slot cap t (suc n) - 1 = ground arith in
      rw (over, there) (add-mod_right _ cap ∙ mod-eq_of_lt (omega arith))
]

still_room : {n k : ℕ} → (n == k) ≡ false → n ≤ k → n < k
still_room e h = ground arith

module _ {ℓ} {A : Type ℓ} where
  abbrev pub first_of : List A → Option A
  first_of [] = none
  first_of (y ∷ q) = some y

  abbrev pub last_of : List A → Option A
  last_of [] = none
  last_of (y ∷ []) = some y
  last_of (y ∷ z ∷ q) = last_of (z ∷ q)

  last_of-get_elem? : (y : A) (q : List A) → get_elem? (y ∷ q) (length q) ≡ last_of (y ∷ q)
  last_of-get_elem? y [] = refl
  last_of-get_elem? y (z ∷ q) = last_of-get_elem? z q

  -- `front` is the oldest element and `back` the newest.
  ends_seen :
      (r : RingBuffer A) (q : List A) → Holds r q → (front r ≡ first_of q) × (back r ≡ last_of q)
  unfolding front back is_empty
  ends_seen r [] h =
      let gone : (r.count == 0) ≡ true = ≡→== _ _ h.count_is in (rw gone refl, rw gone refl)
  ends_seen r (y ∷ q) h =
      let live : (r.count == 0) ≡ false = ≢→== _ _ (λ e. omega (arith, h.count_is)) in
      let few = h.fits in
      let here : slot r.capacity r.tail 0 ≡ r.tail = ground (arith, h.tail_in) in
      let before : sub64 (add64 r.head r.capacity) 1 % r.capacity
          ≡ slot r.capacity r.tail (length q) =
        ap (λ k. sub64 (add64 k r.capacity) 1 % r.capacity) h.head_is
        ∙ slot_before r.capacity r.tail (length q) h.tail_in (omega arith) h.small in
      (
        rw live (ap (λ k. get_or r.buffer k none) (sym here) ∙ h.items 0 (omega arith)),
        rw (live, before) (h.items (length q) (omega arith) ∙ last_of-get_elem? y q),
      )

  collect_end : (r : RingBuffer A) (t : ℕ) → collect 1 r (record { index = t; remaining = 0 }) ≡ []
  unfolding collect next
  collect_end r t = refl

  collect_step :
      (fuel : ℕ) (r : RingBuffer A) (i : Iter) (x : A)
      → (next r i).0 ≡ some x
      → collect (suc fuel) r i ≡ x ∷ collect fuel r (next r i).1
  unfolding collect
  collect_step fuel r i x e = rw (e, collect) refl

  -- The iterator from the `i`th element on.
  collect_from :
      (r : RingBuffer A) (t : ℕ) (q : List A)
      → t < r.capacity
      → r.capacity < 2 ^ 63
      → length q ≤ r.capacity
      → ((i : ℕ) → i < length q → get_or r.buffer (slot r.capacity t i) none ≡ get_elem? q i)
      → collect (suc (length q)) r (record { index = t; remaining = length q }) ≡ q
  unfolding next
  collect_from r t [] h k few items = collect_end r t
  collect_from r t (y ∷ q) h k few items =
      let here : slot r.capacity t 0 ≡ t = ground arith in
      let first : get_or r.buffer t none ≡ some y =
        ap (λ k. get_or r.buffer k none) (sym here) ∙ items 0 (omega arith) in
      let step = step_slot r.capacity t h k in
      let rest =
        collect_from r (slot r.capacity t 1) q (slot_in r.capacity t 1 h (omega arith)) k
          (omega arith)
          (λ i l. rw (slot_next r.capacity t i h (omega arith)) (items (suc i) (omega arith))) in
      let left : sub64 (suc (length q)) 1 ≡ length q = omega arith in
      let more : (suc (length q) == 0) ≡ false = ≢→== _ _ (λ e. omega arith) in
      let one : next r (record { index = t; remaining = suc (length q) })
          ≡ (some y, record { index = slot r.capacity t 1; remaining = length q }) =
        rw (more, first, step, left) refl in
      collect_step _ r _ y (ap (λ p. p.0) one)
      ∙ ap (λ p. y ∷ collect (suc (length q)) r p.1) one
      ∙ ap (λ l. y ∷ l) rest

  -- The iterator yields all the elements, from the oldest to the newest.
  pub iter-elements :
      (r : RingBuffer A) (q : List A) → Holds r q → collect (suc r.count) r (iter r) ≡ q
  iter-elements r q h =
      ap (λ n. collect (suc n) r (record { index = r.tail; remaining = n })) h.count_is
      ∙ collect_from r r.tail q h.tail_in h.small h.fits h.items

  push_capacity : (x : A) (r : RingBuffer A) → (push x r).capacity ≡ r.capacity
  unfolding push is_full
  push_capacity x r = ground arith

  pop_capacity : (r : RingBuffer A) → (pop r).1.capacity ≡ r.capacity
  unfolding pop is_empty
  pop_capacity r = ground arith

  pop_nothing : (r : RingBuffer A) → Holds r [] → pop r ≡ (none, r)
  unfolding pop is_empty
  pop_nothing r h = let gone : (r.count == 0) ≡ true = ≡→== _ _ h.count_is in rw gone refl

  clear-Holds : (r : RingBuffer A) (q : List A) → Holds r q → Holds (clear r) []
  unfolding clear
  clear-Holds r q h =
      let fresh = empty_buffer-Holds {A = A} r.capacity (omega (arith, h.tail_in)) h.small in
      rw h.size fresh

  pub push-Holds :
      (x : A) (r : RingBuffer A) (q : List A)
      → Holds r q
      → Holds (push x r) (enqueue r.capacity x q)
  push-Holds x r [] h =
      let live : (r.capacity == 0) ≡ false = ≢→== _ _ (λ e. omega (arith, h.tail_in)) in
      rw live (push_room x r [] (omega (arith, h.tail_in)) h)
  push-Holds x r (y ∷ q) h = elim (Bool-cases (suc (length q) == r.capacity)) [
    | inl e ↦ rw e (push_full x y r q (==→≡ _ _ e) h)
    | inr e ↦ rw e (push_room x r (y ∷ q) (still_room e h.fits) h)
  ]

  unfoldable pub step : Op A → RingBuffer A → Option A × RingBuffer A
  step (push_op x) r = (none, push x r)
  step pop_op r = pop r
  step clear_op r = (none, clear r)

  -- The same on a queue.
  abbrev pub queue_step : ℕ → Op A → List A → Option A × List A
  queue_step cap (push_op x) q = (none, enqueue cap x q)
  queue_step cap pop_op [] = (none, [])
  queue_step cap pop_op (y ∷ q) = (some y, q)
  queue_step cap clear_op q = (none, [])

  -- Every operation on a buffer that holds `q` answers what it answers on the queue `q` that loses
  -- its oldest element when it is full, and leaves a buffer of the same capacity that holds the
  -- queue's next state.
  pub step-refines :
      (op : Op A) (r : RingBuffer A) (q : List A)
      → Holds r q
      → ((step op r).0 ≡ (queue_step r.capacity op q).0)
        × Holds ((step op r).1) ((queue_step r.capacity op q).1)
        × ((step op r).1.capacity ≡ r.capacity)
  unfolding step clear
  step-refines pop_op r [] h = let p = pop_nothing r h in (ap (λ p. p.0) p, rw p h, pop_capacity r)
  step-refines pop_op r (y ∷ q) h = let p = pop_item y r q h in (p.0, p.1, pop_capacity r)
  step-refines clear_op r q h = (refl, clear-Holds r q h, refl)
  step-refines (push_op x) r q h = (refl, push-Holds x r q h, push_capacity x r)
