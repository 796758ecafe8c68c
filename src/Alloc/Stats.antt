-- ===== src/Alloc/Stats.antt =====
-- `AllocStats` of src/init/alloc/metadata.rs: the allocator's counters. `usize` and `u64` sums wrap.
use nt_rustos.Common.{ℕ, ◌-◌, ◌/◌, ◌^◌, min, max, add64, sub64, ltb, if◌then◌else◌}

pub record AllocStats : Type 0 where
  pub total_size : ℕ
  pub used_size : ℕ
  pub free_size : ℕ
  pub alloc_count : ℕ
  pub free_count : ℕ
  pub total_allocs : ℕ
  pub total_frees : ℕ
  pub failed_allocs : ℕ
  pub double_free_attempts : ℕ
  pub corrupted_blocks : ℕ
  pub max_alloc_size : ℕ
  pub min_alloc_size : ℕ
  pub avg_alloc_size : ℕ
  pub merge_count : ℕ
  pub split_count : ℕ
  pub coalesce_count : ℕ
  pub peak_used_size : ℕ
  pub max_free_block_size : ℕ
  pub fragmentation_percent : ℕ

unfoldable pub new : ℕ → AllocStats
new total = record {
  total_size = total;
  used_size = 0;
  free_size = total;
  alloc_count = 0;
  free_count = 1;
  total_allocs = 0;
  total_frees = 0;
  failed_allocs = 0;
  double_free_attempts = 0;
  corrupted_blocks = 0;
  max_alloc_size = 0;
  min_alloc_size = 2 ^ 64 - 1;
  avg_alloc_size = 0;
  merge_count = 0;
  split_count = 0;
  coalesce_count = 0;
  peak_used_size = 0;
  max_free_block_size = total;
  fragmentation_percent = 0;
}

-- The average is of the new values: `used_size / total_allocs`, if `total_allocs` is not 0.
unfoldable pub record_alloc : ℕ → AllocStats → AllocStats
record_alloc size s =
    let used = add64 s.used_size size in
    let allocs = add64 s.total_allocs 1 in
    record s {
      used_size = used;
      total_allocs = allocs;
      alloc_count = add64 s.alloc_count 1;
      max_alloc_size = max s.max_alloc_size size;
      min_alloc_size = min s.min_alloc_size size;
      peak_used_size = max s.peak_used_size used;
      avg_alloc_size = if ltb 0 allocs then used / allocs else s.avg_alloc_size;
    }

unfoldable pub record_dealloc : ℕ → AllocStats → AllocStats
record_dealloc size s = record s {
  used_size = sub64 s.used_size size;
  total_frees = add64 s.total_frees 1;
  alloc_count = s.alloc_count - 1;
}

unfoldable pub record_merge : AllocStats → AllocStats
record_merge s = record s {
  merge_count = add64 s.merge_count 1;
  coalesce_count = add64 s.coalesce_count 1;
}

unfoldable pub record_split : AllocStats → AllocStats
record_split s = record s { split_count = add64 s.split_count 1 }

unfoldable pub record_alloc_failure : AllocStats → AllocStats
record_alloc_failure s = record s { failed_allocs = add64 s.failed_allocs 1 }

unfoldable pub record_double_free : AllocStats → AllocStats
record_double_free s = record s { double_free_attempts = add64 s.double_free_attempts 1 }

unfoldable pub record_corruption : AllocStats → AllocStats
record_corruption s = record s { corrupted_blocks = add64 s.corrupted_blocks 1 }
