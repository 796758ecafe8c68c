-- ===== src/Alloc/Early/Client/Owned.antt =====
-- What a client holds, when blocks are handed out and given back.
use nt_rustos.Common.{
  ℕ, zero, suc, ◌+◌, ◌≡◌, ◌≢◌, sym, ◌∙◌, List, [], ◌∷◌, ◌++◌, Option, none, some,
}
use nt_rustos.Alloc.Early.Layout.{Block, free_block, allocated_block, span}
use nt_rustos.Alloc.Early.InUse.{InUse, InUse-taken, InUse-released}
use nt_rustos.Alloc.Early.Coalesce.{released}
use nt_rustos.Alloc.Early.Client.{pick, Differ, Owns}

pub Owns-taken :
    (a : ℕ) (pre post left : List Block) (room k p : ℕ) (held : List ℕ)
    → a + span pre + 48 ≡ p
    → k + 48 + span left ≡ room + 48
    → Owns a (pre ++ free_block room ∷ post) held
    → Owns a (pre ++ allocated_block k ∷ (left ++ post)) held × Differ p held
Owns-taken a pre post left room k p [] e w o = (tt, tt)
Owns-taken a pre post left room k p (q ∷ held) e w (u, d, o) =
    let (stay, other) = InUse-taken a pre post left room k q w u in
    let (rest, differ) = Owns-taken a pre post left room k p held e w o in
    ((stay, d, rest), (λ f. other (sym f ∙ sym e), differ))

pub Owns-released :
    (a : ℕ) (pre : List Block) (n : ℕ) (post : List Block) (p : ℕ) (held : List ℕ)
    → a + span pre + 48 ≡ p
    → Differ p held
    → Owns a (pre ++ allocated_block n ∷ post) held
    → Owns a (released pre n post) held
Owns-released a pre n post p [] e d o = tt
Owns-released a pre n post p (q ∷ held) e (other, d) (u, f, o) = (
  InUse-released a pre n post q (λ g. other (sym e ∙ sym g)) u,
  f,
  Owns-released a pre n post p held e d o,
)

-- What is picked from a list, and what is known of it.
abbrev Apart : ℕ → Option (ℕ × List ℕ) → Type 0
Apart q none = Unit {0}
Apart q (some (p, rest)) = (q ≢ p) × Differ q rest

abbrev pub Picked : ℕ → List Block → Option (ℕ × List ℕ) → Type 0
Picked a bs none = Unit {0}
Picked a bs (some (p, rest)) = InUse a bs p × Differ p rest × Owns a bs rest

abbrev keep : ℕ → Option (ℕ × List ℕ) → Option (ℕ × List ℕ)
keep p x = elim x [ none ↦ none | some (q, qs) ↦ some (q, p ∷ qs) ]

Apart-keep : (q p : ℕ) (x : Option (ℕ × List ℕ)) → q ≢ p → Apart q x → Apart q (keep p x)
Apart-keep q p none h d = tt
Apart-keep q p (some (r, rs)) h (e, d) = (e, (h, d))

pick-Apart : (q i : ℕ) (held : List ℕ) → Differ q held → Apart q (pick i held)
pick-Apart q i [] d = tt
pick-Apart q zero (p ∷ ps) d = d
pick-Apart q (suc i) (p ∷ ps) d = Apart-keep q p (pick i ps) d.0 (pick-Apart q i ps d.1)

Picked-keep :
    (a : ℕ) (bs : List Block) (p : ℕ) (x : Option (ℕ × List ℕ))
    → InUse a bs p
    → Apart p x
    → Picked a bs x
    → Picked a bs (keep p x)
Picked-keep a bs p none u d o = tt
Picked-keep a bs p (some (q, qs)) u (e, d) (v, f, o) = (v, ((λ g. e (sym g)), f), (u, d, o))

pub pick-Picked :
    (a : ℕ) (bs : List Block) (i : ℕ) (held : List ℕ) → Owns a bs held → Picked a bs (pick i held)
pick-Picked a bs i [] o = tt
pick-Picked a bs zero (p ∷ ps) o = o
pick-Picked a bs (suc i) (p ∷ ps) (u, d, o) =
    Picked-keep a bs p (pick i ps) u (pick-Apart p i ps d) (pick-Picked a bs i ps o)
