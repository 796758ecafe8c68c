-- ===== src/Trap/RingBuffer/Refine.antt =====
-- The ring buffer implements a queue of bounded length whose oldest element gives way.
use native.Mathlib.Nat.{mod-eq_of_lt, mod_self}
use nt_rustos.Common.{
  ℕ, zero, suc, ◌+◌, ◌-◌, ◌%◌, ◌^◌, ◌<◌, ◌≤◌, ◌≡◌, ◌≢◌, refl, ap, sym, ◌∙◌, none, some, List, [],
  ◌∷◌, ◌++◌, get_or, get_elem?, set, length, length-set, length-append, length-replicate,
  get_or-set_self, get_or-set_ne, ◌==◌, if◌then◌else◌, ltb, add64, arith, true, false, ≢→==, ≡→==,
  inl, inr, zero-cases,
}
use nt_rustos.Trap.RingBuffer.{
  RingBuffer, empty_buffer, with_capacity, push, pop, is_empty, is_full,
}

-- The slot `i` places behind `t`, for `t` and `i` up to the capacity.
abbrev pub slot : ℕ → ℕ → ℕ → ℕ
slot cap t i = if◌then◌else◌ (ltb (t + i) cap) (t + i) (t + i - cap)

pub step_slot : (cap t : ℕ) → t < cap → cap < 2 ^ 63 → add64 t 1 % cap ≡ slot cap t 1
step_slot cap t h k =
    let small : add64 t 1 ≡ t + 1 = omega arith in
    elim (zero-cases (cap - (t + 1))) [
      | inl e ↦
          let whole : t + 1 ≡ cap = omega arith in
          let last : slot cap t 1 ≡ 0 = ground arith in rw (small, last, whole) (mod_self cap)
      | inr p ↦
          let inside : slot cap t 1 ≡ t + 1 = ground arith in
          rw (small, inside) (mod-eq_of_lt (omega arith))
    ]

pub slot_in : (cap t i : ℕ) → t < cap → i ≤ cap → slot cap t i < cap
slot_in cap t i h k = ground arith

slot_twice :
    (cap t j i : ℕ) → t < cap → j + i ≤ cap → slot cap (slot cap t j) i ≡ slot cap t (j + i)
slot_twice cap t j i h k = ground arith

pub slot_next : (cap t i : ℕ) → t < cap → i < cap → slot cap (slot cap t 1) i ≡ slot cap t (suc i)
slot_next cap t i h k = ground arith

slot_all : (cap t : ℕ) → t < cap → slot cap t cap ≡ t
slot_all cap t h = ground arith

slot_ne : (cap t i j : ℕ) → t < cap → i < j → j < cap → slot cap t j ≢ slot cap t i
slot_ne cap t i j h k l = λ e. ground arith

module _ {ℓ} {A : Type ℓ} where
  -- `r` holds the elements of `q`, the oldest first.
  pub record Holds (r : RingBuffer A) (q : List A) : Type ℓ where
    pub size : length r.buffer ≡ r.capacity
    pub small : r.capacity < 2 ^ 63
    pub tail_in : r.tail < r.capacity
    pub count_is : r.count ≡ length q
    pub fits : length q ≤ r.capacity
    pub head_is : r.head ≡ slot r.capacity r.tail (length q)
    pub items :
        (i : ℕ) → i < length q → get_or r.buffer (slot r.capacity r.tail i) none ≡ get_elem? q i

  -- What a push does to the queue: the oldest element of a full one is lost.
  abbrev pub enqueue : ℕ → A → List A → List A
  enqueue cap x [] = if cap == 0 then [] else x ∷ []
  enqueue cap x (y ∷ q) = if length (y ∷ q) == cap then q ++ x ∷ [] else y ∷ q ++ x ∷ []

  pub empty_buffer-Holds : (cap : ℕ) → 0 < cap → cap < 2 ^ 63 → Holds (empty_buffer cap) []
  empty_buffer-Holds cap h k = record {
    size = length-replicate cap none;
    small = k;
    tail_in = h;
    count_is = refl;
    fits = omega arith;
    head_is = ground arith;
    items = λ i l. absurd (omega arith);
  }

  -- `with_capacity` gives an empty queue of any capacity but 0.
  pub with_capacity-Holds :
      (cap : ℕ)
      → 0 < cap
      → cap < 2 ^ 63
      → (with_capacity {A = A} cap ≡ some (empty_buffer cap)) × Holds (empty_buffer cap) []
  unfolding with_capacity
  with_capacity-Holds cap h k =
      let live : (cap == 0) ≡ false = ≢→== _ _ (λ e. omega arith) in
      (rw live refl, empty_buffer-Holds cap h k)

  get_elem?-append_left :
      (q ys : List A) (i : ℕ) → i < length q → get_elem? (q ++ ys) i ≡ get_elem? q i
  get_elem?-append_left [] ys i h = absurd (omega arith)
  get_elem?-append_left (y ∷ q) ys zero h = refl
  get_elem?-append_left (y ∷ q) ys (suc i) h = get_elem?-append_left q ys i (omega arith)

  get_elem?-append_last : (q : List A) (x : A) → get_elem? (q ++ x ∷ []) (length q) ≡ some x
  get_elem?-append_last [] x = refl
  get_elem?-append_last (y ∷ q) x = get_elem?-append_last q x

  -- The slots once `x` is written behind the elements of `q`.
  push_items :
      (x : A) (r : RingBuffer A) (q : List A)
      → length q < r.capacity
      → Holds r q
      → (i : ℕ) → i < length q + 1
      → get_or (set r.buffer r.head (some x)) (slot r.capacity r.tail i) none
        ≡ get_elem? (q ++ x ∷ []) i
  push_items x r q room h i l =
      let inside = slot_in r.capacity r.tail (length q) h.tail_in h.fits in
      elim (zero-cases (length q - i)) [
        | inl e ↦
            let last : i ≡ length q = omega arith in
            rw (last, h.head_is)
              (get_or-set_self r.buffer (slot r.capacity r.tail (length q)) (some x) none
                  (omega (arith, h.size, inside))
                ∙ sym (get_elem?-append_last q x))
        | inr p ↦ rw h.head_is (
            get_or-set_ne r.buffer (some x) none
              (slot_ne r.capacity r.tail i (length q) h.tail_in (omega arith) room)
            ∙ h.items i (omega arith)
            ∙ sym (get_elem?-append_left q (x ∷ []) i (omega arith)))
      ]

  pub push_room :
      (x : A) (r : RingBuffer A) (q : List A)
      → length q < r.capacity
      → Holds r q
      → Holds (push x r) (q ++ x ∷ [])
  unfolding push is_full
  push_room x r q room h =
      let more : (r.count == r.capacity) ≡ false = ≢→== _ _ (λ e. omega (arith, h.count_is)) in
      let len : length (q ++ x ∷ []) ≡ length q + 1 = length-append q (x ∷ []) in
      rw more record {
        size = length-set r.buffer r.head (some x) ∙ h.size;
        small = h.small;
        tail_in = h.tail_in;
        count_is = omega (arith, len, h.count_is, h.small);
        fits = omega (arith, len);
        head_is =
            rw (len, h.head_is)
              (step_slot r.capacity (slot r.capacity r.tail (length q))
                  (slot_in r.capacity r.tail (length q) h.tail_in h.fits) h.small
                ∙ slot_twice r.capacity r.tail (length q) 1 h.tail_in (omega arith));
        items = λ i l. push_items x r q room h i (omega (arith, len));
      }

  -- The slots once `x` is written over the oldest element.
  overwrite_items :
      (x y : A) (r : RingBuffer A) (q : List A)
      → suc (length q) ≡ r.capacity
      → Holds r (y ∷ q)
      → (i : ℕ) → i < length q + 1
      → get_or (set r.buffer r.tail (some x)) (slot r.capacity (slot r.capacity r.tail 1) i) none
        ≡ get_elem? (q ++ x ∷ []) i
  overwrite_items x y r q full h i l =
      let first = slot_next r.capacity r.tail i h.tail_in (omega arith) in
      elim (zero-cases (length q - i)) [
        | inl e ↦
            let last : i ≡ length q = omega arith in
            let round : slot r.capacity r.tail (suc i) ≡ r.tail =
              ap (slot r.capacity r.tail) (omega arith) ∙ slot_all r.capacity r.tail h.tail_in in
            rw (first, round, last)
              (get_or-set_self r.buffer r.tail (some x) none (omega (arith, h.size, h.tail_in))
                ∙ sym (get_elem?-append_last q x))
        | inr p ↦
            let apart : r.tail ≢ slot r.capacity r.tail (suc i) = λ e. ground (arith, h.tail_in) in
            rw first (
              get_or-set_ne r.buffer (some x) none apart
              ∙ h.items (suc i) (omega arith)
              ∙ sym (get_elem?-append_left q (x ∷ []) i (omega arith)))
      ]

  -- A push to a full buffer overwrites the oldest element.
  pub push_full :
      (x y : A) (r : RingBuffer A) (q : List A)
      → suc (length q) ≡ r.capacity
      → Holds r (y ∷ q)
      → Holds (push x r) (q ++ x ∷ [])
  unfolding push is_full
  push_full x y r q full h =
      let more : (r.count == r.capacity) ≡ true = ≡→== _ _ (omega (arith, h.count_is)) in
      let len : length (q ++ x ∷ []) ≡ r.capacity = omega (arith, full, length-append q (x ∷ [])) in
      let over : r.head ≡ r.tail =
        h.head_is ∙ ap (slot r.capacity r.tail) full ∙ slot_all r.capacity r.tail h.tail_in in
      let next = step_slot r.capacity r.tail h.tail_in h.small in
      let inside = slot_in r.capacity r.tail 1 h.tail_in (omega arith) in
      rw more record {
        size = length-set r.buffer r.head (some x) ∙ h.size;
        small = h.small;
        tail_in = rw next inside;
        count_is = omega (arith, len, h.count_is);
        fits = omega (arith, len);
        head_is =
            rw (over, next, len) (sym (slot_all r.capacity (slot r.capacity r.tail 1) inside));
        items =
            λ i l. rw (over, next) (overwrite_items x y r q full h i (omega (arith, len, full)));
      }

  -- A pop answers the oldest element.
  pub pop_item :
      (y : A) (r : RingBuffer A) (q : List A)
      → Holds r (y ∷ q)
      → ((pop r).0 ≡ some y) × Holds ((pop r).1) q
  unfolding pop is_empty
  pop_item y r q h =
      let live : (r.count == 0) ≡ false = ≢→== _ _ (λ e. omega (arith, h.count_is)) in
      let next = step_slot r.capacity r.tail h.tail_in h.small in
      let inside = slot_in r.capacity r.tail 1 h.tail_in (omega (arith, h.fits)) in
      let here : slot r.capacity r.tail 0 ≡ r.tail = ground (arith, h.tail_in) in
      let few = h.fits in
      rw live (
        ap (λ k. get_or r.buffer k none) (sym here) ∙ h.items 0 (omega arith),
        record {
          size = length-set r.buffer r.tail none ∙ h.size;
          small = h.small;
          tail_in = rw next inside;
          count_is = omega (arith, h.count_is, h.fits, h.small);
          fits = omega (arith, h.fits);
          head_is =
              rw next
                (h.head_is ∙ sym (slot_next r.capacity r.tail (length q) h.tail_in (omega arith)));
          items = λ i l.
              (let first = slot_next r.capacity r.tail i h.tail_in (omega arith) in
                let apart : r.tail ≢ slot r.capacity r.tail (suc i) =
                  λ e. ground (arith, h.tail_in) in
                rw (next, first)
                  (get_or-set_ne r.buffer none none apart ∙ h.items (suc i) (omega arith)));
        },
      )
