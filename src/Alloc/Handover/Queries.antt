-- ===== src/Alloc/Handover/Queries.antt =====
-- What src/init/alloc/handover.rs reads off the tracked blocks. The time stamps come from a counter:
-- each reading of the age of a block advances it. Percentages in `f32` are a parameter. An outer
-- `none` is an index out of bounds, which panics.
use nt_rustos.Common.{
  ℕ, zero, suc, ◌-◌, ◌*◌, ◌/◌, ◌^◌, max, Bool, true, false, ◌||◌, ltb, ◌==◌, if◌then◌else◌, List,
  [], ◌∷◌, ◌++◌, length, get_or, set, replicate, take, Option, none, some, add64, ◌>>=◌,
}
use nt_rustos.Alloc.Purpose
use nt_rustos.Alloc.Purpose.{AllocPurpose}
use nt_rustos.Alloc.Handover.{
  AllocatedBlock, HandoverInfo, end_addr, contains, no_block, max_tracked_blocks,
}
use nt_rustos.Alloc.Handover.Sort.{bubble_sort}

-- `usize::MAX`
abbrev pub no_index : ℕ
no_index = 2 ^ 64 - 1

-- `0..n`
abbrev pub range : ℕ → ℕ → List ℕ
range from zero = []
range from (suc n) = from ∷ range (suc from) n

-- The indices of an array of 512 that has the first `count` places filled.
abbrev pub indices : ℕ → List ℕ
indices count = range 0 count ++ replicate (max_tracked_blocks - count) 0

unfoldable pub priority_of : HandoverInfo → ℕ → ℕ
priority_of info i = Purpose.priority (get_or info.allocated_blocks i no_block).purpose

unfoldable pub blocks_by_priority : HandoverInfo → Option (List ℕ)
blocks_by_priority info =
    if ltb max_tracked_blocks info.allocated_count
    then none
    else some (bubble_sort (priority_of info) info.allocated_count (indices info.allocated_count))

-- The age of a block, and the clock after it was read.
unfoldable pub age : ℕ → AllocatedBlock → ℕ × ℕ
age clock b = (clock - b.timestamp, add64 clock 1)

unfoldable pub is_old : ℕ → ℕ → AllocatedBlock → Bool × ℕ
is_old threshold clock b = let r = age clock b in (ltb threshold r.0, r.1)

-- An array of `room` places that begins with what was found.
abbrev pub padded : ℕ → List ℕ → List ℕ
padded room found = take room (found ++ replicate room no_index)

-- The loop of `find_old_blocks`, from index `i` on.
unfoldable pub old_from : ℕ → ℕ → ℕ → List AllocatedBlock → List ℕ × ℕ
old_from threshold clock i [] = ([], clock)
old_from threshold clock i (b ∷ bs) =
    let r = is_old threshold clock b in
    let rest = old_from threshold r.1 (suc i) bs in (if r.0 then i ∷ rest.0 else rest.0, rest.1)

unfoldable pub find_old_blocks : ℕ → ℕ → HandoverInfo → List ℕ × ℕ
find_old_blocks age_threshold clock info =
    let r = old_from age_threshold clock 0 (take info.allocated_count info.allocated_blocks) in
    (padded max_tracked_blocks r.0, r.1)

-- The first of `block_count` blocks that contains an address.
unfoldable pub find_block_by_addr : List AllocatedBlock → ℕ → ℕ → Option (Option AllocatedBlock)
find_block_by_addr blocks zero addr = some none
find_block_by_addr [] (suc block_count) addr = none
find_block_by_addr (b ∷ blocks) (suc block_count) addr =
    let rest = find_block_by_addr blocks block_count addr in
    if contains b addr then some (some b) else rest

-- The loop of `find_blocks_by_purpose`.
unfoldable pub with_purpose : AllocPurpose → ℕ → List AllocatedBlock → ℕ → Option (List ℕ)
with_purpose purpose i blocks zero = some []
with_purpose purpose i [] (suc block_count) = none
with_purpose purpose i (b ∷ blocks) (suc block_count) =
    with_purpose purpose (suc i) blocks block_count >>= λ rest.
    some (if Purpose.code b.purpose == Purpose.code purpose then i ∷ rest else rest)

unfoldable pub find_blocks_by_purpose : List AllocatedBlock → ℕ → AllocPurpose → Option (List ℕ)
find_blocks_by_purpose blocks block_count purpose =
    with_purpose purpose 0 blocks block_count >>= λ found. some (padded max_tracked_blocks found)

pub record LeakDetectionResult : Type 0 where
  pub suspicious_blocks : List ℕ
  pub suspicious_count : ℕ
  pub total_suspicious_size : ℕ
  pub oldest_block_age : ℕ
  pub leak_score : ℕ

abbrev no_leaks : LeakDetectionResult
no_leaks = record {
  suspicious_blocks = replicate 64 no_index;
  suspicious_count = 0;
  total_suspicious_size = 0;
  oldest_block_age = 0;
  leak_score = 0;
}

abbrev short_lived : AllocPurpose → Bool
short_lived AllocPurpose.temp_buffer = true
short_lived AllocPurpose.testing = true
short_lived _ = false

-- The age that is noted of an old block is read a second time.
unfoldable pub note_age : ℕ → AllocatedBlock → LeakDetectionResult → Bool × LeakDetectionResult × ℕ
note_age clock b r =
    let old = is_old 10000 clock b in
    if old.0
    then (let again = age old.1 b in
        (true, record r { oldest_block_age = max r.oldest_block_age again.0 }, again.1))
    else (false, r, old.1)

-- The age is read only for the purposes that are short-lived.
abbrev pub is_stale : ℕ → AllocatedBlock → Bool × ℕ
is_stale clock b = if short_lived b.purpose then is_old 1000 clock b else (false, clock)

abbrev pub suspect : ℕ → AllocatedBlock → LeakDetectionResult → LeakDetectionResult
suspect i b r =
    if ltb r.suspicious_count 64
    then record r {
      suspicious_blocks = set r.suspicious_blocks r.suspicious_count i;
      suspicious_count = suc r.suspicious_count;
      total_suspicious_size = add64 r.total_suspicious_size b.size;
    }
    else r

-- The loop of `detect_potential_leaks`, from index `i` on.
unfoldable pub leaks_from :
    ℕ → ℕ → List AllocatedBlock → LeakDetectionResult → LeakDetectionResult × ℕ
leaks_from clock i [] r = (r, clock)
leaks_from clock i (b ∷ bs) r =
    let aged = note_age clock b r in
    let stale = is_stale aged.2 b in
    let suspicious = aged.0 || (ltb (1024 * 1024) b.size || stale.0) in
    leaks_from stale.1 (suc i) bs (if suspicious then suspect i b aged.1 else aged.1)

-- `percent a b` is `(a as f32 / b as f32 * 100.0) as u8`.
unfoldable pub detect_potential_leaks : (ℕ → ℕ → ℕ) → ℕ → HandoverInfo → LeakDetectionResult × ℕ
detect_potential_leaks percent clock info =
    let r = leaks_from clock 0 (take info.allocated_count info.allocated_blocks) no_leaks in
    (record (r.0) { leak_score = percent r.0.suspicious_count (max info.allocated_count 1) }, r.1)

pub record FragmentationAnalysis : Type 0 where
  pub external_fragmentation : ℕ
  pub internal_fragmentation : ℕ
  pub largest_free_block : ℕ
  pub free_block_count : ℕ
  pub fragmentation_score : ℕ

abbrev no_gaps : FragmentationAnalysis
no_gaps = record {
  external_fragmentation = 0;
  internal_fragmentation = 0;
  largest_free_block = 0;
  free_block_count = 0;
  fragmentation_score = 0;
}

-- A gap from `last_end` to `next`, if there is one.
abbrev pub count_gap : ℕ → ℕ → FragmentationAnalysis → FragmentationAnalysis
count_gap last_end next a =
    if ltb last_end next
    then (let gap_size = next - last_end in
        record a {
          external_fragmentation = add64 a.external_fragmentation gap_size;
          free_block_count = add64 a.free_block_count 1;
          largest_free_block = max a.largest_free_block gap_size;
        })
    else a

-- The loop over the blocks in the order of their addresses, with the gap behind the last one.
unfoldable pub count_gaps :
    ℕ → ℕ → List AllocatedBlock → FragmentationAnalysis → FragmentationAnalysis
count_gaps heap_end last_end [] a = count_gap last_end heap_end a
count_gaps heap_end last_end (b ∷ bs) a =
    count_gaps heap_end (end_addr b) bs (count_gap last_end b.addr a)

abbrev pub pick : List AllocatedBlock → List ℕ → List AllocatedBlock
pick blocks [] = []
pick blocks (i ∷ is_) = get_or blocks i no_block ∷ pick blocks is_

unfoldable pub calculate_advanced_fragmentation :
    (ℕ → ℕ → ℕ) → List AllocatedBlock → ℕ → ℕ → ℕ → Option FragmentationAnalysis
calculate_advanced_fragmentation percent blocks block_count heap_start heap_end =
    if ltb max_tracked_blocks block_count || ltb (length blocks) block_count
    then none
    else let addr_of = λ (i : ℕ). (get_or blocks i no_block).addr in
      let sorted_blocks = bubble_sort addr_of block_count (indices block_count) in
      let a =
        count_gaps heap_end heap_start (pick blocks (take block_count sorted_blocks)) no_gaps in
      some (
        if ltb 0 a.external_fragmentation
        then record a {
          fragmentation_score = percent a.free_block_count (a.external_fragmentation / 4096);
        }
        else a)
