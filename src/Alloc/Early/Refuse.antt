-- ===== src/Alloc/Early/Refuse.antt =====
-- The requests that `dealloc` refuses.
use nt_rustos.Common.{ℕ, ◌<◌, ◌≤◌, ◌≡◌, ◌⊎◌, inl, inr, arith, true, false, lt→ltb, le→ltb, some}
use nt_rustos.Alloc.Header.{validate, is_free}
use nt_rustos.Alloc.Stats
use nt_rustos.Alloc.Early.{State, AllocError, err, dealloc, header_of, on_stats}

-- What makes `dealloc` refuse an address, with the error and the state that it leaves: a frozen
-- heap, an address outside the heap, a header that is not sound, a header that is free.
pub data Refusal (s : State) (user : ℕ) : AllocError → State → Type 0 where
  when_frozen : s.early.frozen ≡ true → Refusal s user AllocError.allocator_frozen s
  outside :
      s.early.frozen ≡ false
      → (user < s.early.heap_start) ⊎ (s.early.heap_end < user)
      → Refusal s user AllocError.invalid_pointer s
  unsound :
      s.early.frozen ≡ false
      → s.early.heap_start ≤ user
      → user ≤ s.early.heap_end
      → validate (s.mem.header (header_of user)) ≡ false
      → Refusal s user AllocError.corrupted_header (on_stats Stats.record_corruption s)
  already_free :
      s.early.frozen ≡ false
      → s.early.heap_start ≤ user
      → user ≤ s.early.heap_end
      → validate (s.mem.header (header_of user)) ≡ true
      → is_free (s.mem.header (header_of user)).status ≡ true
      → Refusal s user AllocError.double_free (on_stats Stats.record_double_free s)

-- `dealloc` refuses a frozen heap, an address outside the heap, a header that is not sound and a
-- header that is free, each with its own error, and at most one counter of the statistics changes.
pub dealloc-refuse :
    (s : State) (user : ℕ) (e : AllocError) (t : State)
    → Refusal s user e t
    → dealloc user s ≡ some (err e, t)
unfolding dealloc
dealloc-refuse s user _ _ (when_frozen h) = ground arith
dealloc-refuse s user _ _ (outside h (inl a)) = let c = lt→ltb _ _ a in ground arith
dealloc-refuse s user _ _ (outside h (inr a)) = let c = lt→ltb _ _ a in ground arith
dealloc-refuse s user _ _ (unsound h a b v) =
    let c = le→ltb _ _ a in let d = le→ltb _ _ b in ground arith
dealloc-refuse s user _ _ (already_free h a b v f) =
    let c = le→ltb _ _ a in let d = le→ltb _ _ b in ground arith
