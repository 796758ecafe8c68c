-- ===== src/Alloc/Early/Sequence.antt =====
-- Sequences of requests and releases.
use mathlib.Core.Path.{subst}
use nt_rustos.Common.{
  ℕ, ◌+◌, ◌^◌, ◌<◌, ◌≤◌, ◌≡◌, ◌⊎◌, inl, inr, refl, ap, List, [], ◌∷◌, ◌++◌, arith, true, false,
  Bool-cases, zero-cases, Option, some, ◌∙◌, sym,
}
use nt_rustos.Alloc.Stats
use nt_rustos.Alloc.Memory.{Memory}
use nt_rustos.Alloc.Early.{
  State, alloc_aligned, dealloc, header_of, is_power_of_two, on_stats, ◌>>=◌,
}
use nt_rustos.Alloc.Early.Layout.{
  Block, free_block, allocated_block, size, status, span, Tiles, Tiles-end,
}
use nt_rustos.Alloc.Early.Invariant.{Inv}
use nt_rustos.Alloc.Early.Allocate.{alloc_aligned-result, alloc_aligned-refuse, failed, failed-Inv}
use nt_rustos.Alloc.Early.Take.{here_Tiles, whole_end}
use nt_rustos.Alloc.Early.Release.{dealloc-result}
use nt_rustos.Alloc.Early.Refuse.{dealloc-refuse, already_free, when_frozen}

pub data Command : Type 0 where
  request : ℕ → ℕ → Command
  give_back : ℕ → Command

-- The state that a command leaves.
unfoldable pub run_command : Command → State → Option State
run_command (request size align) s = alloc_aligned size align s >>= λ r. some r.1
run_command (give_back user) s = dealloc user s >>= λ r. some r.1

unfoldable pub run : List Command → State → Option State
unfolding run_command
run [] s = some s
run (c ∷ cs) s = run_command c s >>= run cs

-- A walk over sound headers from the start of the heap comes to the header 48 bytes below `user`.
abbrev pub AtBlock : State → ℕ → Type 0
AtBlock s user =
    (bs : List Block) × (x : ℕ) × Tiles s.mem s.early.heap_start bs x
    × (x < s.early.heap_end)
    × (x + 48 ≡ user)

-- What a client owes: requests that do not reach the end of the address space, and releases of
-- addresses that belong to a block.
abbrev pub Permitted : State → Command → Type 0
Permitted s (request size align) = s.early.heap_end + align + size + 64 ≤ 2 ^ 64
Permitted s (give_back user) = AtBlock s user

abbrev pub Careful : State → List Command → Type 0
Careful s [] = Unit {0}
Careful s (c ∷ cs) = Permitted s c × ((t : State) → run_command c s ≡ some t → Careful t cs)

same_block : (b c : Block) → size b ≡ size c → status b ≡ status c → b ≡ c
same_block (free_block n) (free_block k) e f = ap free_block e
same_block (free_block n) (allocated_block k) e f = cc
same_block (allocated_block n) (free_block k) e f = cc
same_block (allocated_block n) (allocated_block k) e f = ap allocated_block e

-- Two walks over the same headers see the same blocks.
pub Tiles-prefix :
    (m : Memory) (a x e : ℕ) (xs bs : List Block)
    → Tiles m a xs x
    → Tiles m a bs e
    → x < e
    → (b : Block) × (post : List Block) × (bs ≡ xs ++ b ∷ post)
Tiles-prefix m a x e [] [] t u h = absurd (omega arith)
Tiles-prefix m a x e [] (b ∷ bs) t u h = (b, bs, refl)
Tiles-prefix m a x e (c ∷ xs) [] t u h = absurd (omega (arith, Tiles-end m a x (c ∷ xs) t))
Tiles-prefix m a x e (c ∷ xs) (b ∷ bs) t u h =
    let same = same_block b c (sym u.0 ∙ t.0) (sym u.1 ∙ t.1) in
    let width = ap size same in
    let rest =
      Tiles-prefix m (a + size c + 48) x e xs bs t.4
        (subst (λ k. Tiles m (a + k + 48) bs e) width u.4) h in
    (rest.0, rest.1, ap (λ k. k ∷ bs) same ∙ ap (λ l. c ∷ l) rest.2)

double_free-Inv :
    (s : State) (bs : List Block) → Inv s bs → Inv (on_stats Stats.record_double_free s) bs
unfolding Stats.record_double_free
double_free-Inv s bs inv = record {
  tiles = inv.tiles;
  chain = inv.chain;
  start_pos = inv.start_pos;
  bounded = inv.bounded;
  counts = record {
    free_size = inv.counts.free_size;
    free_count = inv.counts.free_count;
    used_size = inv.counts.used_size;
    alloc_count = inv.counts.alloc_count;
  };
}

abbrev pub Sound : Option State → Type 0
Sound r = (t : State) × (bs : List Block) × (r ≡ some t) × Inv t bs

pub request-Sound :
    (s : State) (bs : List Block) (size align : ℕ)
    → Inv s bs
    → s.early.heap_end + align + size + 64 ≤ 2 ^ 64
    → Sound (run_command (request size align) s)
unfolding run_command
request-Sound s bs size align inv h =
    let refused : (s.early.frozen ≡ true) ⊎ (size ≡ 0) ⊎ (is_power_of_two align ≡ false)
        → Sound (alloc_aligned size align s >>= λ r. some r.1) =
      λ e. (
        failed s,
        bs,
        ap (λ r. r >>= λ r. some r.1) (alloc_aligned-refuse s bs size align inv e),
        failed-Inv s bs size align inv,
      ) in
    elim (Bool-cases s.early.frozen) [
      | inl e ↦ refused (inl e)
      | inr live ↦ elim (Bool-cases (is_power_of_two align)) [
        | inr e ↦ refused (inr (inr e))
        | inl p ↦ elim (zero-cases size) [
          | inl e ↦ refused (inr (inl e))
          | inr pos ↦ elim (alloc_aligned-result s bs size align inv live pos p h) [
            | inl a ↦ (a.state, _, ap (λ r. r >>= λ r. some r.1) a.returns, a.inv_after)
            | inr n ↦
                (failed s, bs, ap (λ r. r >>= λ r. some r.1) n.1, failed-Inv s bs size align inv)
          ]
        ]
      ]
    ]

-- The block of `b` bytes behind `pre` is given back.
release-Sound :
    (s : State) (pre post : List Block) (b : Block)
    → Inv s (pre ++ b ∷ post)
    → s.early.frozen ≡ false
    → Sound (dealloc (s.early.heap_start + span pre + 48) s >>= λ r. some r.1)
release-Sound s pre post (allocated_block n) inv live =
    let r = dealloc-result s pre post n (s.early.heap_start + span pre) inv refl live in
    (r.0, _, ap (λ r. r >>= λ r. some r.1) r.1, r.2)
release-Sound s pre post (free_block n) inv live =
    let at = s.early.heap_start + span pre in
    let here = here_Tiles s pre post n at inv refl in
    let end = whole_end s pre post n at inv refl in
    let block : header_of (at + 48) ≡ at = omega (arith, inv.bounded) in
    (
      on_stats Stats.record_double_free s,
      _,
      ap (λ r. r >>= λ r. some r.1)
          (dealloc-refuse s (at + 48) _ _ (
            already_free live (omega arith) (omega arith) (rw block here.2)
              (rw (block, here.1) refl))),
      double_free-Inv s _ inv,
    )

pub give_back-Sound :
    (s : State) (bs : List Block) (user : ℕ)
    → Inv s bs
    → AtBlock s user
    → Sound (run_command (give_back user) s)
unfolding run_command
give_back-Sound s bs user inv (pre, x, walk, inside, place) = elim (Bool-cases s.early.frozen) [
  | inl e ↦ (s, bs, ap (λ r. r >>= λ r. some r.1) (dealloc-refuse s user _ _ (when_frozen e)), inv)
  | inr live ↦
      let split =
        Tiles-prefix s.mem s.early.heap_start x s.early.heap_end pre bs walk inv.tiles inside in
      let there : s.early.heap_start + span pre + 48 ≡ user =
        omega (arith, Tiles-end s.mem s.early.heap_start x pre walk, place) in
      subst (λ u. Sound (dealloc u s >>= λ r. some r.1)) there
        (release-Sound s pre split.1 split.0 (subst (Inv s) split.2 inv) live)
]

-- A command that a client may give ends, and the heap is sound again.
command-Sound :
    (s : State) (bs : List Block) (c : Command) → Inv s bs → Permitted s c → Sound (run_command c s)
command-Sound s bs (request size align) inv h = request-Sound s bs size align inv h
command-Sound s bs (give_back user) inv h = give_back-Sound s bs user inv h

-- On a sound heap a client's commands, however many and in whatever order, all end, and the heap is sound
-- after them, if each request stays below the end of the address space and each released address is
-- that 48 bytes behind the header of a block.
pub run-Inv :
    (cs : List Command) (s : State) (bs : List Block)
    → Inv s bs
    → Careful s cs
    → (t : State) × (bs' : List Block) × (run cs s ≡ some t) × Inv t bs'
unfolding run
run-Inv [] s bs inv c = (s, bs, refl, inv)
run-Inv (c ∷ cs) s bs inv h =
    let one = command-Sound s bs c inv h.0 in
    let rest = run-Inv cs one.0 one.1 one.3 (h.1 one.0 one.2) in
    (rest.0, rest.1, rw one.2 rest.2, rest.3)
