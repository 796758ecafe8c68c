-- ===== src/Alloc/Handover/Priority.antt =====
-- The order of the tracked blocks by priority.
use mathlib.Core.List.{Permᴰ}
use nt_rustos.Common.{
  ℕ, zero, suc, ◌-◌, ◌≤◌, ◌≡◌, refl, ap, some, List, ◌++◌, length, replicate, le→ltb,
}
use nt_rustos.Alloc.Handover.{HandoverInfo}
use nt_rustos.Alloc.Handover.Sort.{Ascending, bubble_sort-Ascending}
use nt_rustos.Alloc.Handover.Queries.{range, priority_of, blocks_by_priority}

length-range : (from n : ℕ) → length (range from n) ≡ n
length-range from zero = refl
length-range from (suc n) = ap suc (length-range (suc from) n)

-- With at most 512 blocks tracked, `blocks_by_priority` begins with the index of every tracked block,
-- each once, in an order in which the priorities do not fall; zeros fill the array.
pub blocks_by_priority-Ascending :
    (info : HandoverInfo)
    → info.allocated_count ≤ 512
    → (order : List ℕ) × (blocks_by_priority info
        ≡ some (order ++ replicate (512 - info.allocated_count) 0))
      × Permᴰ (range 0 info.allocated_count) order
      × Ascending (priority_of info) order
unfolding blocks_by_priority
blocks_by_priority-Ascending info h =
    let (order, e, p, a) =
      bubble_sort-Ascending (priority_of info) info.allocated_count (range 0 info.allocated_count)
        (replicate (512 - info.allocated_count) 0) (length-range 0 info.allocated_count) in
    (order, rw (le→ltb _ _ h, e) refl, p, a)
