-- ===== src/Alloc/Global/Bytes/Zeroed.antt =====
-- What `alloc_zeroed` writes.
use nt_rustos.Common.{
  ℕ, ◌+◌, ◌-◌, ◌^◌, ◌<◌, ◌≤◌, ◌≡◌, ◌≢◌, refl, ◌⊎◌, inl, inr, List, arith, Option, none, some,
  bind_cases, zero-cases, ≢→==,
}
use nt_rustos.Alloc.Header.{allocated}
use nt_rustos.Alloc.Early
use nt_rustos.Alloc.Early.{State, ◌>>=◌}
use nt_rustos.Alloc.Early.Layout.{Block}
use nt_rustos.Alloc.Early.Invariant.{Inv}
use nt_rustos.Alloc.Early.Sequence.{AtBlock, request-Sound, run_command}
use nt_rustos.Alloc.Early.Apart.{alloc_aligned-Apart}
use nt_rustos.Alloc.Guarded
use nt_rustos.Alloc.Guarded.{ThreadSafeEarlyAllocator, hold}
use nt_rustos.Alloc.Global
use nt_rustos.Alloc.Global.{Layout}
use nt_rustos.Alloc.Global.Bytes.{write_zeros, alloc_zeroed}

-- The answer of `alloc_zeroed` on a heap and the bytes that it leaves: null, or an address with zeros from
-- there on, and the bytes of every allocated block as they were.
pub data Zeroed (s : State) (count : ℕ) (bytes : ℕ → ℕ) : ℕ → (ℕ → ℕ) → Type 0 where
  refused : Zeroed s count bytes 0 bytes
  zeroed :
      (p : ℕ) (after : ℕ → ℕ)
      → p ≢ 0
      → ((a : ℕ) → p ≤ a → a < p + count → after a ≡ 0)
      → ((ptr : ℕ)
          → AtBlock s ptr
          → (s.mem.header (ptr - 48)).status ≡ allocated
          → (a : ℕ) → ptr ≤ a
          → a < ptr + (s.mem.header (ptr - 48)).size
          → after a ≡ bytes a)
      → Zeroed s count bytes p after

write_zeros-inside :
    (p count : ℕ) (bytes : ℕ → ℕ) (a : ℕ) → p ≤ a → a < p + count → write_zeros p count bytes a ≡ 0
write_zeros-inside p count bytes a h k = ground arith

write_zeros-outside :
    (p count : ℕ) (bytes : ℕ → ℕ) (a : ℕ)
    → (a < p) ⊎ (p + count ≤ a)
    → write_zeros p count bytes a ≡ bytes a
write_zeros-outside p count bytes a h = ground arith

module _ (s : State) (bs : List Block) (inv : Inv s bs) where
  abbrev Answer : Layout → (ℕ → ℕ) → Type 0
  Answer layout bytes =
      (p : ℕ) × (t : State) × (bs' : List Block) × (after : ℕ → ℕ) × (alloc_zeroed layout (hold s)
          bytes
        ≡ some (p, hold t, after))
      × Inv t bs'
      × Zeroed s layout.size bytes p after

  met :
      (layout : Layout) (bytes : ℕ → ℕ) (answer : Option ℕ) (t : State) (bs' : List Block)
      → Inv t bs'
      → Early.alloc_aligned layout.size layout.align s ≡ some (answer, t)
      → s.early.heap_end + layout.align + layout.size + 64 ≤ 2 ^ 64
      → Answer layout bytes
  unfolding alloc_zeroed Global.alloc Guarded.alloc_aligned
  met layout bytes none t bs' inv' e small = (0, t, bs', bytes, rw e refl, inv', refused)
  met layout bytes (some p) t bs' inv' e small = elim (zero-cases p) [
    | inl z ↦ (0, t, bs', bytes, rw (e, z) refl, inv', refused)
    | inr pos ↦
        let live : p ≢ 0 = λ z. omega (arith, z, pos) in
        (
          p,
          t,
          bs',
          write_zeros p layout.size bytes,
          rw (e, ≢→== p 0 live) refl,
          inv',
          zeroed p _ live (write_zeros-inside p layout.size bytes) (λ ptr there held a h k.
              let apart =
                (alloc_aligned-Apart s bs ptr inv there layout.size layout.align p t held small
                  e).apart in
              write_zeros-outside p layout.size bytes a (elim apart [
                | inl f ↦ inr (omega (arith, f, h))
                | inr f ↦ inl (omega (arith, f, k))
              ])),
        )
  ]

  -- In a sound heap `alloc_zeroed` ends, if it stays below the end of the address space, and leaves a
  -- sound heap. It answers null and writes nothing, or an address from which on as many bytes are 0 as
  -- were asked for, and the bytes of every allocated block are as they were.
  pub alloc_zeroed-Zeroed :
      (layout : Layout) (bytes : ℕ → ℕ)
      → s.early.heap_end + layout.align + layout.size + 64 ≤ 2 ^ 64
      → (p : ℕ) × (t : State) × (bs' : List Block) × (after : ℕ → ℕ) × (alloc_zeroed layout
            (hold s)
            bytes
          ≡ some (p, hold t, after))
        × Inv t bs'
        × Zeroed s layout.size bytes p after
  unfolding run_command
  alloc_zeroed-Zeroed layout bytes small =
      let (t, bs', e, inv') = request-Sound s bs layout.size layout.align inv small in
      let (answer, q) = bind_cases (Early.alloc_aligned layout.size layout.align s) t e in
      met layout bytes answer t bs' inv' q small
