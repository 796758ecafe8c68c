-- ===== src/Alloc/Health.antt =====
-- The report on the health of the heap: the percentages and `HealthIssues` of
-- src/init/alloc/metadata.rs, and the snapshots of src/init/alloc/mod.rs. Arithmetic in `f32` is a
-- parameter.
pub mod Issues
mod Tests
use nt_rustos.Common.{
  ℕ, ◌+◌, ◌-◌, ◌^◌, Bool, true, false, not, ◌&&◌, ◌||◌, ltb, leb, ◌==◌, if◌then◌else◌, add64, sub64,
  bit_or, bit_and, Option, none, some,
}
use nt_rustos.Alloc.Stats.{AllocStats}
use nt_rustos.Alloc.Handover.{HandoverInfo}
use nt_rustos.Alloc.Service
use nt_rustos.Alloc.Service.{Service}

-- `(a as f32 / b as f32 * 100.0) as u8` and `(100.0 - a as f32 / b as f32 * 100.0) as u8`.
pub record Percentages : Type 0 where
  pub percent : ℕ → ℕ → ℕ
  pub missing_percent : ℕ → ℕ → ℕ

abbrev pub high_memory_usage : ℕ
high_memory_usage = 1

abbrev pub high_fragmentation : ℕ
high_fragmentation = 2

abbrev pub low_success_rate : ℕ
low_success_rate = 4

abbrev pub corruption_detected : ℕ
corruption_detected = 8

abbrev pub potential_leak : ℕ
potential_leak = 16

-- `HealthIssues::contains`
abbrev pub contains_issue : ℕ → ℕ → Bool
contains_issue issues issue = bit_and issues issue == issue

-- `if test { issues |= flag }`
abbrev pub flag : Bool → ℕ → ℕ → ℕ
flag test issue issues = if test then bit_or issues issue else issues

module _ (f : Percentages) where
  unfoldable pub usage_percent : AllocStats → ℕ
  usage_percent s = if s.total_size == 0 then 0 else f.percent s.used_size s.total_size

  unfoldable pub fragmentation_estimate : AllocStats → ℕ
  fragmentation_estimate s =
      if s.free_size == 0 || s.max_free_block_size == 0
      then 0
      else f.missing_percent s.max_free_block_size s.free_size

  unfoldable pub success_rate : AllocStats → ℕ
  success_rate s =
      let total_attempts = add64 s.total_allocs s.failed_allocs in
      if total_attempts == 0 then 100 else f.percent s.total_allocs total_attempts

  unfoldable pub check_health : AllocStats → ℕ
  check_health s =
      let issues = flag (ltb 90 (usage_percent s)) high_memory_usage 0 in
      let issues = flag (ltb 50 (fragmentation_estimate s)) high_fragmentation issues in
      let issues =
        flag (ltb (success_rate s) 95 && ltb 100 s.total_allocs) low_success_rate issues in
      let issues =
        flag (ltb 0 s.double_free_attempts || ltb 0 s.corrupted_blocks) corruption_detected
          issues in
      flag (ltb s.total_frees s.total_allocs && ltb 1000 (sub64 s.total_allocs s.total_frees))
        potential_leak issues

  unfoldable pub health_check : Service → Option ℕ
  health_check v = elim (Service.stats v) [ none ↦ none | some t ↦ some (check_health t) ]

-- `HealthStatus::is_healthy`
unfoldable pub is_healthy : ℕ → Bool
is_healthy issues = issues == 0

pub record MemorySnapshot : Type 0 where
  pub timestamp : ℕ
  pub statistics : AllocStats
  pub handover_info : HandoverInfo

-- The `i64` differences are 64-bit words in two's complement.
pub record SnapshotComparison : Type 0 where
  pub time_delta : ℕ
  pub alloc_delta : ℕ
  pub dealloc_delta : ℕ
  pub size_delta : ℕ
  pub block_count_delta : ℕ

unfoldable pub compare_snapshots : MemorySnapshot → MemorySnapshot → SnapshotComparison
compare_snapshots a b = record {
  time_delta = b.timestamp - a.timestamp;
  alloc_delta = sub64 b.statistics.total_allocs a.statistics.total_allocs;
  dealloc_delta = sub64 b.statistics.total_frees a.statistics.total_frees;
  size_delta = sub64 b.statistics.used_size a.statistics.used_size;
  block_count_delta = sub64 b.handover_info.allocated_count a.handover_info.allocated_count;
}
