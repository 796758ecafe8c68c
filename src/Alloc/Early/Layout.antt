-- ===== src/Alloc/Early/Layout.antt =====
-- The heap as the list of its blocks in the order of their addresses: an abstract view of the
-- headers in memory, and what the counters ought to say of it.
use nt_rustos.Common.{
  ℕ, suc, ◌+◌, ◌<◌, ◌≤◌, ◌≡◌, refl, ap, ◌∙◌, List, [], ◌∷◌, ◌++◌, arith, length, true,
}
use nt_rustos.Alloc.Header.{BlockStatus, free, allocated, validate}
use nt_rustos.Alloc.Memory.{Memory}
use nt_rustos.Alloc.Early.Chain.{Sorted, Below}

-- A block of a number of bytes, its header not counted.
pub data Block : Type 0 where
  free_block : ℕ → Block
  allocated_block : ℕ → Block

abbrev pub size : Block → ℕ
size (free_block n) = n
size (allocated_block n) = n

abbrev pub status : Block → BlockStatus
status (free_block n) = free
status (allocated_block n) = allocated

-- From the address `a` to the address `e` the memory is a row of blocks with sound headers.
abbrev pub Tiles : Memory → ℕ → List Block → ℕ → Type 0
Tiles m a [] e = a ≡ e
Tiles m a (b ∷ bs) e =
    ((m.header a).size ≡ size b)
    × ((m.header a).status ≡ status b)
    × (validate (m.header a) ≡ true)
    × (16 ≤ size b)
    × Tiles m (a + size b + 48) bs e

-- The bytes that the blocks take up.
abbrev pub span : List Block → ℕ
span [] = 0
span (b ∷ bs) = size b + 48 + span bs

-- The free-list nodes of the blocks from the address `a` on.
abbrev pub nodes : ℕ → List Block → List ℕ
nodes a [] = []
nodes a (free_block n ∷ bs) = (a + 48) ∷ nodes (a + n + 48) bs
nodes a (allocated_block n ∷ bs) = nodes (a + n + 48) bs

-- The bytes of the free blocks with their headers, and of the allocated ones without.
abbrev pub free_total : List Block → ℕ
free_total [] = 0
free_total (free_block n ∷ bs) = n + 48 + free_total bs
free_total (allocated_block n ∷ bs) = free_total bs

abbrev pub used_total : List Block → ℕ
used_total [] = 0
used_total (free_block n ∷ bs) = used_total bs
used_total (allocated_block n ∷ bs) = n + used_total bs

abbrev pub count_free : List Block → ℕ
count_free [] = 0
count_free (free_block n ∷ bs) = suc (count_free bs)
count_free (allocated_block n ∷ bs) = count_free bs

abbrev pub count_allocated : List Block → ℕ
count_allocated [] = 0
count_allocated (free_block n ∷ bs) = count_allocated bs
count_allocated (allocated_block n ∷ bs) = suc (count_allocated bs)

pub span-append : (xs ys : List Block) → span (xs ++ ys) ≡ span xs + span ys
span-append [] ys = omega arith
span-append (b ∷ xs) ys = omega (arith, span-append xs ys)

pub free_total-append : (xs ys : List Block) → free_total (xs ++ ys) ≡ free_total xs + free_total ys
free_total-append [] ys = omega arith
free_total-append (free_block n ∷ xs) ys = omega (arith, free_total-append xs ys)
free_total-append (allocated_block n ∷ xs) ys = omega (arith, free_total-append xs ys)

pub used_total-append : (xs ys : List Block) → used_total (xs ++ ys) ≡ used_total xs + used_total ys
used_total-append [] ys = omega arith
used_total-append (free_block n ∷ xs) ys = omega (arith, used_total-append xs ys)
used_total-append (allocated_block n ∷ xs) ys = omega (arith, used_total-append xs ys)

pub count_free-append : (xs ys : List Block) → count_free (xs ++ ys) ≡ count_free xs + count_free ys
count_free-append [] ys = omega arith
count_free-append (free_block n ∷ xs) ys = omega (arith, count_free-append xs ys)
count_free-append (allocated_block n ∷ xs) ys = omega (arith, count_free-append xs ys)

pub count_allocated-append :
    (xs ys : List Block) → count_allocated (xs ++ ys) ≡ count_allocated xs + count_allocated ys
count_allocated-append [] ys = omega arith
count_allocated-append (free_block n ∷ xs) ys = omega (arith, count_allocated-append xs ys)
count_allocated-append (allocated_block n ∷ xs) ys = omega (arith, count_allocated-append xs ys)

pub nodes-append :
    (a : ℕ) (xs ys : List Block) → nodes a (xs ++ ys) ≡ nodes a xs ++ nodes (a + span xs) ys
nodes-append a [] ys = ap (λ k. nodes k ys) (omega arith)
nodes-append a (free_block n ∷ xs) ys =
    ap (λ l. (a + 48) ∷ l) (nodes-append (a + n + 48) xs ys)
    ∙ ap (λ k. (a + 48) ∷ nodes (a + n + 48) xs ++ nodes k ys) (omega arith)
nodes-append a (allocated_block n ∷ xs) ys =
    nodes-append (a + n + 48) xs ys ∙ ap (λ k. nodes (a + n + 48) xs ++ nodes k ys) (omega arith)

pub Tiles-end : (m : Memory) (a e : ℕ) (bs : List Block) → Tiles m a bs e → a + span bs ≡ e
Tiles-end m a e [] t = omega (arith, t)
Tiles-end m a e (b ∷ bs) t = omega (arith, Tiles-end m (a + size b + 48) e bs t.4)

pub nodes-Sorted : (p a : ℕ) (bs : List Block) → p < a + 48 → Sorted p (nodes a bs)
nodes-Sorted p a [] h = tt
nodes-Sorted p a (free_block n ∷ bs) h = (h, nodes-Sorted (a + 48) (a + n + 48) bs (omega arith))
nodes-Sorted p a (allocated_block n ∷ bs) h = nodes-Sorted p (a + n + 48) bs (omega arith)

pub nodes-Below : (a e : ℕ) (bs : List Block) → a + span bs < e → Below e (nodes a bs)
nodes-Below a e [] h = tt
nodes-Below a e (free_block n ∷ bs) h = (omega arith, nodes-Below (a + n + 48) e bs (omega arith))
nodes-Below a e (allocated_block n ∷ bs) h = nodes-Below (a + n + 48) e bs (omega arith)

pub length-nodes : (a : ℕ) (bs : List Block) → length (nodes a bs) ≤ span bs
length-nodes a [] = omega arith
length-nodes a (free_block n ∷ bs) = omega (arith, length-nodes (a + n + 48) bs)
length-nodes a (allocated_block n ∷ bs) = omega (arith, length-nodes (a + n + 48) bs)

-- Headers outside the row do not matter.
pub Tiles-frame :
    (m m' : Memory) (a e : ℕ) (bs : List Block)
    → ((x : ℕ) → a ≤ x → x < e → m'.header x ≡ m.header x)
    → Tiles m a bs e
    → Tiles m' a bs e
Tiles-frame m m' a e [] same t = t
Tiles-frame m m' a e (b ∷ bs) same t =
    let end = Tiles-end m a e (b ∷ bs) t in
    let here = same a (omega arith) (omega arith) in
    (
      rw here t.0,
      rw here t.1,
      rw here t.2,
      t.3,
      Tiles-frame m m' (a + size b + 48) e bs (λ x h k. same x (omega arith) k) t.4,
    )

pub Tiles-append :
    (m : Memory) (a x e : ℕ) (xs ys : List Block)
    → Tiles m a xs x
    → Tiles m x ys e
    → Tiles m a (xs ++ ys) e
Tiles-append m a x e [] ys t u = rw t u
Tiles-append m a x e (b ∷ xs) ys t u =
    (t.0, t.1, t.2, t.3, Tiles-append m (a + size b + 48) x e xs ys t.4 u)

pub Tiles-split :
    (m : Memory) (a x e : ℕ) (xs ys : List Block)
    → a + span xs ≡ x
    → Tiles m a (xs ++ ys) e
    → Tiles m a xs x × Tiles m x ys e
Tiles-split m a x e [] ys h t = let e' : a ≡ x = omega arith in (e', rw e' at t)
Tiles-split m a x e (b ∷ xs) ys h t =
    let rest = Tiles-split m (a + size b + 48) x e xs ys (omega arith) t.4 in
    ((t.0, t.1, t.2, t.3, rest.0), rest.1)

-- Part of the row is laid out anew, and the headers of the rest stay.
pub Tiles-replace :
    (m m' : Memory) (a at e : ℕ) (pre mid mid' post : List Block)
    → a + span pre ≡ at
    → ((x : ℕ) → x < at → m'.header x ≡ m.header x)
    → ((x : ℕ) → at + span mid ≤ x → m'.header x ≡ m.header x)
    → Tiles m' at mid' (at + span mid)
    → Tiles m a (pre ++ (mid ++ post)) e
    → Tiles m' a (pre ++ (mid' ++ post)) e
Tiles-replace m m' a at e pre mid mid' post h before behind new t =
    let outer = Tiles-split m a at e pre (mid ++ post) h t in
    let inner = Tiles-split m at (at + span mid) e mid post refl outer.1 in
    Tiles-append m' a at e pre (mid' ++ post)
      (Tiles-frame m m' a at pre (λ x p q. before x q) outer.0)
      (Tiles-append m' at (at + span mid) e mid' post new
        (Tiles-frame m m' (at + span mid) e post (λ x p q. behind x p) inner.1))

pub free_total-le : (bs : List Block) → free_total bs ≤ span bs
free_total-le [] = omega arith
free_total-le (free_block n ∷ bs) = omega (arith, free_total-le bs)
free_total-le (allocated_block n ∷ bs) = omega (arith, free_total-le bs)

pub used_total-le : (bs : List Block) → used_total bs ≤ span bs
used_total-le [] = omega arith
used_total-le (free_block n ∷ bs) = omega (arith, used_total-le bs)
used_total-le (allocated_block n ∷ bs) = omega (arith, used_total-le bs)

pub count_free-le : (bs : List Block) → count_free bs ≤ span bs
count_free-le [] = omega arith
count_free-le (free_block n ∷ bs) = omega (arith, count_free-le bs)
count_free-le (allocated_block n ∷ bs) = omega (arith, count_free-le bs)

pub count_allocated-le : (bs : List Block) → count_allocated bs ≤ span bs
count_allocated-le [] = omega arith
count_allocated-le (free_block n ∷ bs) = omega (arith, count_allocated-le bs)
count_allocated-le (allocated_block n ∷ bs) = omega (arith, count_allocated-le bs)
