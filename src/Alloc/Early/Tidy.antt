-- ===== src/Alloc/Early/Tidy.antt =====
-- Heaps whose blocks have sizes that are multiples of 8.
use nt_rustos.Common.{ℕ, ◌+◌, ◌%◌, ◌≡◌, ◌⊎◌, inl, inr, List, [], ◌∷◌, ◌++◌, arith}
use nt_rustos.Alloc.Early.Layout.{Block, free_block, allocated_block, size, span}
use nt_rustos.Alloc.Early.MergePrev.{join_prev}
use nt_rustos.Alloc.Early.Coalesce.{released}

abbrev pub IsTidy : List Block → Type 0
IsTidy [] = Unit {0}
IsTidy (b ∷ bs) = (size b % 8 ≡ 0) × IsTidy bs

pub IsTidy-append : (xs ys : List Block) → IsTidy xs → IsTidy ys → IsTidy (xs ++ ys)
IsTidy-append [] ys h k = k
IsTidy-append (b ∷ xs) ys h k = (h.0, IsTidy-append xs ys h.1 k)

pub IsTidy-split : (xs ys : List Block) → IsTidy (xs ++ ys) → IsTidy xs × IsTidy ys
IsTidy-split [] ys h = (tt, h)
IsTidy-split (b ∷ xs) ys h = let (l, r) = IsTidy-split xs ys h.1 in ((h.0, l), r)

pub span-IsTidy : (bs : List Block) → IsTidy bs → span bs % 8 ≡ 0
span-IsTidy [] h = omega arith
span-IsTidy (b ∷ bs) h = omega (arith, h.0, span-IsTidy bs h.1)

IsTidy-join :
    (pre : List Block) (n : ℕ) (post : List Block)
    → IsTidy pre
    → n % 8 ≡ 0
    → IsTidy post
    → IsTidy (join_prev pre n post)
IsTidy-join [] n post h k l = (k, l)
IsTidy-join (free_block m ∷ []) n post h k l = (omega (arith, h.0, k), l)
IsTidy-join (allocated_block m ∷ []) n post h k l = (h.0, (k, l))
IsTidy-join (free_block m ∷ c ∷ pre) n post h k l = (h.0, IsTidy-join (c ∷ pre) n post h.1 k l)
IsTidy-join (allocated_block m ∷ c ∷ pre) n post h k l = (h.0, IsTidy-join (c ∷ pre) n post h.1 k l)

pub IsTidy-released :
    (pre : List Block) (n : ℕ) (post : List Block)
    → IsTidy (pre ++ allocated_block n ∷ post)
    → IsTidy (released pre n post)
IsTidy-released pre n [] h =
    let (l, r) = IsTidy-split pre (allocated_block n ∷ []) h in IsTidy-join pre n [] l r.0 tt
IsTidy-released pre n (free_block m ∷ post) h =
    let (l, r) = IsTidy-split pre (allocated_block n ∷ free_block m ∷ post) h in
    IsTidy-join pre (n + m + 48) post l (omega (arith, r.0, r.1.0)) r.1.1
IsTidy-released pre n (allocated_block m ∷ post) h =
    let (l, r) = IsTidy-split pre (allocated_block n ∷ allocated_block m ∷ post) h in
    IsTidy-join pre n (allocated_block m ∷ post) l r.0 r.1

-- The part that is handed out of a free block and the part that is left.
pub IsTidy-taken :
    (pre post left : List Block) (room k : ℕ)
    → IsTidy (pre ++ free_block room ∷ post)
    → k % 8 ≡ 0
    → (left ≡ []) × (k ≡ room) ⊎ (q : ℕ) × (left ≡ free_block q ∷ []) × (k + 48 + q ≡ room)
    → IsTidy (pre ++ allocated_block k ∷ (left ++ post))
IsTidy-taken pre post left room k h d (inl (e, w)) =
    let (l, r) = IsTidy-split pre (free_block room ∷ post) h in
    rw e (IsTidy-append pre (allocated_block k ∷ post) l (d, r.1))
IsTidy-taken pre post left room k h d (inr (q, e, w)) =
    let (l, r) = IsTidy-split pre (free_block room ∷ post) h in
    rw e (
      IsTidy-append pre (allocated_block k ∷ free_block q ∷ post) l
        (d, (omega (arith, d, r.0, w), r.1)))
