-- ===== src/Alloc/Early/Client/Serve.antt =====
-- The client's deeds on a heap that it shares.
use mathlib.Core.Path.{subst}
use nt_rustos.Common.{
  ℕ, zero, suc, ◌+◌, ◌%◌, ◌^◌, ◌<◌, ◌≤◌, ◌≡◌, refl, sym, ◌∙◌, ◌⊎◌, inl, inr, List, [], ◌∷◌, ◌++◌,
  arith, true, zero-cases, Option, none, some,
}
use nt_rustos.Alloc.Early.{State, alloc_aligned, dealloc, is_power_of_two, ok, err, ◌>>=◌}
use nt_rustos.Alloc.Early.Layout.{free_block, allocated_block, span}
use nt_rustos.Alloc.Early.Invariant.{Inv}
use nt_rustos.Alloc.Early.InUse.{InUse-block, InUse-new}
use nt_rustos.Alloc.Early.Tidy.{IsTidy, IsTidy-split, IsTidy-taken, IsTidy-released, span-IsTidy}
use nt_rustos.Alloc.Early.Allocate.{
  Allocated, alloc_aligned-result, alloc_aligned-refuse, failed, failed-Inv,
}
use nt_rustos.Alloc.Early.Release.{freed, freed-kept, dealloc-freed}
use nt_rustos.Alloc.Early.Coalesce.{released}
use nt_rustos.Alloc.Early.Persist.{left_span}
use nt_rustos.Alloc.Early.Client.{
  Deed, ask, give, pick, act, acts, Modest, AllModest, Owns, IsShared,
}
use nt_rustos.Alloc.Early.Client.Owned.{Owns-taken, Owns-released, Picked, pick-Picked}

small_power :
    (align : ℕ)
    → is_power_of_two align ≡ true
    → align ≤ 8
    → (align ≡ 1) ⊎ (align ≡ 2) ⊎ (align ≡ 4) ⊎ (align ≡ 8)
small_power zero h k = cc
small_power (suc zero) h k = inl refl
small_power (suc (suc zero)) h k = inr (inl refl)
small_power (suc (suc (suc zero))) h k = cc
small_power (suc (suc (suc (suc zero)))) h k = inr (inr (inl refl))
small_power (suc (suc (suc (suc (suc zero))))) h k = cc
small_power (suc (suc (suc (suc (suc (suc zero)))))) h k = cc
small_power (suc (suc (suc (suc (suc (suc (suc zero))))))) h k = cc
small_power (suc (suc (suc (suc (suc (suc (suc (suc zero)))))))) h k = inr (inr (inr refl))
small_power (suc (suc (suc (suc (suc (suc (suc (suc (suc n))))))))) h k = absurd (omega arith)

-- An aligned address just behind a multiple of 8 is that multiple.
no_padding :
    (b user align : ℕ)
    → b % 8 ≡ 0
    → user % align ≡ 0
    → b ≤ user
    → user < b + align
    → is_power_of_two align ≡ true
    → align ≤ 8
    → user ≡ b
no_padding b user align d e h k p w = elim (small_power align p w) [
  | inl a ↦ omega (arith, a, d, h, k)
  | inr (inl a) ↦
      let f : user % 2 ≡ 0 = subst (λ n. user % n ≡ 0) a e in omega (arith, a, d, f, h, k)
  | inr (inr (inl a)) ↦
      let f : user % 4 ≡ 0 = subst (λ n. user % n ≡ 0) a e in omega (arith, a, d, f, h, k)
  | inr (inr (inr a)) ↦
      let f : user % 8 ≡ 0 = subst (λ n. user % n ≡ 0) a e in omega (arith, a, d, f, h, k)
]

abbrev Sharing : ℕ → Option (State × List ℕ) → Type 0
Sharing end r = (s : State) × (held : List ℕ) × (r ≡ some (s, held)) × IsShared end s held

-- The client's list once a request has been answered.
abbrev pub with_answer : Option ℕ → List ℕ → List ℕ
with_answer none held = held
with_answer (some p) held = p ∷ held

-- A request ends, and the heap is shared with the client's new list.
abbrev pub Answered : ℕ → State → List ℕ → ℕ → ℕ → Type 0
Answered end s held size align =
    (a : Option ℕ) × (t : State) × (alloc_aligned size align s ≡ some (a, t))
    × IsShared end t (with_answer a held)

-- An address is given back, and the heap is shared with the rest of the list.
abbrev pub Returned : ℕ → State → ℕ → List ℕ → Type 0
Returned end s p rest = (t : State) × (dealloc p s ≡ some (ok tt, t)) × IsShared end t rest

-- A request of a heap that is shared.
module _ (end : ℕ) (s : State) (held : List ℕ) (h : IsShared end s held) (size align : ℕ)
    (whole : size % 8 ≡ 0) (power : is_power_of_two align ≡ true) (small : align ≤ 8)
    (near : end + size + 72 ≤ 2 ^ 64) where
  refused : alloc_aligned size align s ≡ some (none, failed s) → Answered end s held size align
  refused e = (
    none,
    failed s,
    e,
    record {
      blocks = h.blocks;
      sound = failed-Inv s h.blocks size align h.sound;
      live = h.live;
      tidy = h.tidy;
      start_even = h.start_even;
      ends = h.ends;
      owned = h.owned;
    },
  )

  given :
      Allocated s h.blocks size align (alloc_aligned size align s) → Answered end s held size align
  given a =
      let tidy = subst IsTidy a.blocks h.tidy in
      let parts = IsTidy-split a.pre (free_block a.room ∷ a.post) tidy in
      let even = span-IsTidy a.pre parts.0 in
      let place : a.user ≡ s.early.heap_start + span a.pre + 48 =
        no_padding (s.early.heap_start + span a.pre + 48) a.user align
          (omega (arith, h.start_even, even)) a.aligned a.low a.near power small in
      let width : a.block_size % 8 ≡ 0 = elim a.shape [
        | inl (e, w) ↦ omega (arith, w, parts.1.0)
        | inr (q, e, w) ↦ elim a.exact [ inl f ↦ cc | inr f ↦ omega (arith, f, place, whole) ]
      ] in
      let owned =
        Owns-taken s.early.heap_start a.pre a.post a.left a.room a.block_size a.user held
          (sym place) (left_span a.left a.block_size a.room a.shape)
          (subst (λ l. Owns s.early.heap_start l held) a.blocks h.owned) in
      let now = a.pre ++ allocated_block a.block_size ∷ (a.left ++ a.post) in
      (
        some a.user,
        a.state,
        a.returns,
        record {
          blocks = now;
          sound = a.inv_after;
          live = a.frozen_same ∙ h.live;
          tidy = IsTidy-taken a.pre a.post a.left a.room a.block_size tidy width a.shape;
          start_even = omega (arith, h.start_even, a.start_same);
          ends = a.end_same ∙ h.ends;
          owned =
              subst (λ x. Owns x now (a.user ∷ held)) (sym a.start_same)
                (
                  InUse-new s.early.heap_start a.pre (a.left ++ a.post) a.block_size a.user
                      (sym place),
                  owned.1,
                  owned.0,
                );
        },
      )

  pub alloc_aligned-Answered : Answered end s held size align
  alloc_aligned-Answered = elim (zero-cases size) [
    | inl e ↦ refused (alloc_aligned-refuse s h.blocks size align h.sound (inr (inl e)))
    | inr pos ↦
        elim (alloc_aligned-result s h.blocks size align h.sound h.live pos power
          (omega (arith, near, h.ends, small))) [ inl a ↦ given a | inr r ↦ refused r.1 ]
  ]

-- The return of an address that the client holds.
module _ (end : ℕ) (s : State) (held : List ℕ) (h : IsShared end s held) where
  given_back :
      (p : ℕ) (rest : List ℕ)
      → Picked s.early.heap_start h.blocks (some (p, rest))
      → Returned end s p rest
  given_back p rest (u, d, o) =
      let (pre, n, post, e, place) = InUse-block s.early.heap_start h.blocks p u in
      let at = s.early.heap_start + span pre in
      let sound = subst (Inv s) e h.sound in
      let (done, after) = dealloc-freed s pre post n at sound refl h.live in
      let (start, stop, frozen) = freed-kept s pre post n at sound refl in
      let answer =
        subst (λ q. dealloc q s ≡ some (ok tt, freed s pre post n at sound refl)) place done in
      (
        freed s pre post n at sound refl,
        answer,
        record {
          blocks = released pre n post;
          sound = after;
          live = frozen ∙ h.live;
          tidy = IsTidy-released pre n post (subst IsTidy e h.tidy);
          start_even = omega (arith, h.start_even, start);
          ends = stop ∙ h.ends;
          owned = rw start (
              Owns-released s.early.heap_start pre n post p rest place d
                (subst (λ l. Owns s.early.heap_start l rest) e o));
        },
      )

  picked_back :
      (x : Option (ℕ × List ℕ))
      → Picked s.early.heap_start h.blocks x
      → Sharing end (elim x [
        | none ↦ some (s, held)
        | some (p, rest) ↦ dealloc p s >>= λ r. elim r.0 [ ok u ↦ some (r.1, rest) | err e ↦ none ]
      ])
  picked_back none o = (s, held, refl, h)
  picked_back (some (p, rest)) o = let (t, e, k) = given_back p rest o in (t, rest, rw e refl, k)

  give-Sharing : (i : ℕ) → Sharing end (act (give i) (s, held))
  unfolding act
  give-Sharing i =
      picked_back (pick i held) (pick-Picked s.early.heap_start h.blocks i held h.owned)

-- The address that the client was given last is accepted.
pub dealloc-Returned :
    (end : ℕ) (s : State) (p : ℕ) (held : List ℕ)
    → IsShared end s (p ∷ held)
    → Returned end s p held
dealloc-Returned end s p held h = given_back end s (p ∷ held) h p held h.owned

asked :
    (end : ℕ) (s : State) (held : List ℕ) (size align : ℕ)
    → Answered end s held size align
    → Sharing end (act (ask size align) (s, held))
unfolding act
asked end s held size align (none, t, e, k) = (t, _, rw e refl, k)
asked end s held size align (some p, t, e, k) = (t, _, rw e refl, k)

act-Sharing :
    (end : ℕ) (s : State) (held : List ℕ) (d : Deed)
    → IsShared end s held
    → Modest end d
    → Sharing end (act d (s, held))
act-Sharing end s held (ask size align) h (whole, power, small, near) =
    asked end s held size align
      (alloc_aligned-Answered end s held h size align whole power small near)
act-Sharing end s held (give i) h m = give-Sharing end s held h i

-- On a heap that is sound and not frozen, begins at a multiple of 8 and has blocks of multiples of 8
-- bytes, whatever a client does that asks for multiples of 8 bytes at alignments up to 8, below the end
-- of the address space, and gives back only what it holds: each deed ends, no address that it gives
-- back is refused, the heap stays sound, and the addresses that the client holds are those of as many
-- allocated blocks.
pub acts-IsShared :
    (end : ℕ) (ds : List Deed) (s : State) (held : List ℕ)
    → IsShared end s held
    → AllModest end ds
    → (t : State) × (held' : List ℕ) × (acts ds (s, held) ≡ some (t, held')) × IsShared end t held'
unfolding acts
acts-IsShared end [] s held h m = (s, held, refl, h)
acts-IsShared end (d ∷ ds) s held h m =
    let (t, kept, e, k) = act-Sharing end s held d h m.0 in
    let (u, last, f, l) = acts-IsShared end ds t kept k m.1 in (u, last, rw (e, f) refl, l)
