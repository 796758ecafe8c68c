-- ===== src/Trap/RingBuffer.antt =====
-- `RingBuffer` of src/trap/collections/ring_buffer.rs and its iterator. The buffer's indices stay
-- inside the vector, so a read out of bounds, which panics in the source, is an empty slot here.
pub mod Refine
pub mod Views
mod Tests
use nt_rustos.Common.{
  ℕ, zero, suc, ◌+◌, ◌-◌, ◌%◌, Bool, Option, none, some, List, [], ◌∷◌, get_or, set, replicate,
  length, ◌==◌, if◌then◌else◌, add64, sub64,
}

pub record RingBuffer {ℓ} (A : Type ℓ) : Type ℓ where
  pub buffer : List (Option A)
  pub capacity : ℕ
  pub head : ℕ
  pub tail : ℕ
  pub count : ℕ

-- The iterator's own state.
pub record Iter : Type 0 where
  pub index : ℕ
  pub remaining : ℕ

module _ {ℓ} {A : Type ℓ} where
  -- A buffer of empty slots.
  abbrev pub empty_buffer : ℕ → RingBuffer A
  empty_buffer capacity = record {
    buffer = replicate capacity none;
    capacity = capacity;
    head = 0;
    tail = 0;
    count = 0;
  }

  -- The `assert!` on the capacity is the empty answer.
  unfoldable pub with_capacity : ℕ → Option (RingBuffer A)
  with_capacity capacity = if capacity == 0 then none else some (empty_buffer capacity)

  unfoldable pub is_empty : RingBuffer A → Bool
  is_empty r = r.count == 0

  unfoldable pub is_full : RingBuffer A → Bool
  is_full r = r.count == r.capacity

  unfoldable pub push : A → RingBuffer A → RingBuffer A
  unfolding is_full
  push item r =
      let r = record r { buffer = set r.buffer r.head (some item) } in
      let r = record r { head = add64 r.head 1 % r.capacity } in
      if is_full r
      then record r { tail = add64 r.tail 1 % r.capacity }
      else record r { count = add64 r.count 1 }

  unfoldable pub pop : RingBuffer A → Option A × RingBuffer A
  unfolding is_empty
  pop r = if is_empty r then (none, r) else (
    get_or r.buffer r.tail none,
    record r {
      buffer = set r.buffer r.tail none;
      tail = add64 r.tail 1 % r.capacity;
      count = sub64 r.count 1;
    },
  )

  unfoldable pub front : RingBuffer A → Option A
  unfolding is_empty
  front r = if is_empty r then none else get_or r.buffer r.tail none

  unfoldable pub back : RingBuffer A → Option A
  unfolding is_empty
  back r =
      if is_empty r
      then none
      else get_or r.buffer (sub64 (add64 r.head r.capacity) 1 % r.capacity) none

  unfoldable pub clear : RingBuffer A → RingBuffer A
  clear r = record r { buffer = replicate (length r.buffer) none; head = 0; tail = 0; count = 0 }

  abbrev pub iter : RingBuffer A → Iter
  iter r = record { index = r.tail; remaining = r.count }

  unfoldable pub next : RingBuffer A → Iter → Option A × Iter
  next r i = if i.remaining == 0 then (none, i) else (
    get_or r.buffer i.index none,
    record { index = add64 i.index 1 % r.capacity; remaining = sub64 i.remaining 1 },
  )

  -- What a `for` loop over the iterator sees: it runs until `next` answers `None`.
  unfoldable pub collect : ℕ → RingBuffer A → Iter → List A
  unfolding next
  collect zero r i = []
  collect (suc fuel) r i =
      let rest = collect fuel r (next r i).1 in elim (next r i).0 [ none ↦ [] | some x ↦ x ∷ rest ]
