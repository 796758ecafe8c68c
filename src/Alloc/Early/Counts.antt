-- ===== src/Alloc/Early/Counts.antt =====
-- The counters that follow the blocks: what the free blocks take up with their headers, what the
-- allocated ones take up without, and how many there are of each.
use nt_rustos.Common.{ℕ, ◌+◌, ◌^◌, ◌<◌, ◌≡◌, arith, List, ◌∷◌, ◌++◌}
use nt_rustos.Alloc.Stats
use nt_rustos.Alloc.Stats.{AllocStats}
use nt_rustos.Alloc.Early.{drop_free, add_free, count_merge}
use nt_rustos.Alloc.Early.Layout.{
  Block, free_block, allocated_block, span, free_total, used_total, count_free, count_allocated,
  free_total-append, used_total-append, count_free-append, count_allocated-append, span-append,
  free_total-le, used_total-le, count_free-le, count_allocated-le,
}

pub record Counts (t : AllocStats) (bs : List Block) : Type 0 where
  pub free_size : t.free_size ≡ free_total bs
  pub free_count : t.free_count ≡ count_free bs
  pub used_size : t.used_size ≡ used_total bs
  pub alloc_count : t.alloc_count ≡ count_allocated bs

ruleset totals = (
  arith, free_total-append, used_total-append, count_free-append, count_allocated-append,
  span-append, free_total-le, used_total-le, count_free-le, count_allocated-le,
)

-- A whole free block is handed out.
pub Counts-take :
    (t : AllocStats) (n : ℕ) (pre post : List Block)
    → Counts t (pre ++ free_block n ∷ post)
    → span (pre ++ free_block n ∷ post) < 2 ^ 64
    → Counts (Stats.record_alloc n (drop_free n t)) (pre ++ allocated_block n ∷ post)
unfolding Stats.record_alloc drop_free
Counts-take t n pre post c h = omega totals

-- A free block is split, and its first part handed out.
pub Counts-split :
    (t : AllocStats) (n k r : ℕ) (pre post : List Block)
    → Counts t (pre ++ free_block n ∷ post)
    → span (pre ++ free_block n ∷ post) < 2 ^ 64
    → k + 48 + r ≡ n
    → Counts
        (Stats.record_alloc k (add_free r (Stats.record_split (drop_free n t))))
        (pre ++ allocated_block k ∷ free_block r ∷ post)
unfolding Stats.record_alloc Stats.record_split drop_free add_free
Counts-split t n k r pre post c h e = omega totals

-- An allocated block is given back.
pub Counts-release :
    (t : AllocStats) (n : ℕ) (pre post : List Block)
    → Counts t (pre ++ allocated_block n ∷ post)
    → span (pre ++ allocated_block n ∷ post) < 2 ^ 64
    → Counts (add_free n (Stats.record_dealloc n t)) (pre ++ free_block n ∷ post)
unfolding Stats.record_dealloc add_free
Counts-release t n pre post c h = omega totals

-- Two free neighbours are joined.
pub Counts-merge :
    (t : AllocStats) (n k : ℕ) (pre post : List Block)
    → Counts t (pre ++ free_block n ∷ free_block k ∷ post)
    → span (pre ++ free_block n ∷ free_block k ∷ post) < 2 ^ 64
    → Counts (count_merge t) (pre ++ free_block (n + k + 48) ∷ post)
unfolding count_merge Stats.record_merge
Counts-merge t n k pre post c h = omega totals
