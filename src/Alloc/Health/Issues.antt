-- ===== src/Alloc/Health/Issues.antt =====
-- What the report on the health of the heap says.
use nt_rustos.Common.{ℕ, ◌≡◌, ◌+◌, ◌^◌, ◌<◌, Bool, not, ◌&&◌, ◌||◌, ltb, sub64, sym, arith}
use nt_rustos.Alloc.Stats.{AllocStats}
use nt_rustos.Alloc.Health.{
  Percentages, flag, contains_issue, check_health, is_healthy, usage_percent,
  fragmentation_estimate, success_rate, high_memory_usage, high_fragmentation, low_success_rate,
  corruption_detected, potential_leak,
}

abbrev flags : Bool → Bool → Bool → Bool → Bool → ℕ
flags a b c d e = flag e potential_leak (
    flag d corruption_detected
      (flag c low_success_rate (flag b high_fragmentation (flag a high_memory_usage 0))))

-- A set of issues that holds just those whose test is true.
pub record Reports (a b c d e : Bool) (issues : ℕ) : Type 0 where
  pub memory : contains_issue issues high_memory_usage ≡ a
  pub fragments : contains_issue issues high_fragmentation ≡ b
  pub failures : contains_issue issues low_success_rate ≡ c
  pub corruption : contains_issue issues corruption_detected ≡ d
  pub leak : contains_issue issues potential_leak ≡ e
  pub healthy : is_healthy issues ≡ not (a || b || c || d || e)

flags-Reports : (a b c d e : Bool) → Reports a b c d e (flags a b c d e)
unfolding is_healthy
flags-Reports a b c d e = ground arith

damage : (n k : ℕ) → (ltb 0 n || ltb 0 k) ≡ ltb 0 (n + k)
damage n k = ground arith

excess : (n k : ℕ) → n < 2 ^ 64 → (ltb k n && ltb 1000 (sub64 n k)) ≡ ltb (k + 1000) n
excess n k h = ground arith

-- With the percentages that `f` computes, the report of `check_health` names an issue just if it is
-- there: more than 90 percent of the heap are in use, the free memory is scattered to more than 50
-- percent, less than 95 percent of the requests were met and more than 100 were, a block was released
-- twice or found damaged, or the blocks handed out, a 64-bit number, outnumber the returned ones by
-- more than 1000. The heap is healthy just if the report names none.
pub check_health-Reports :
    (f : Percentages) (s : AllocStats)
    → s.total_allocs < 2 ^ 64
    → Reports
        (ltb 90 (usage_percent f s))
        (ltb 50 (fragmentation_estimate f s))
        (ltb (success_rate f s) 95 && ltb 100 s.total_allocs)
        (ltb 0 (s.double_free_attempts + s.corrupted_blocks))
        (ltb (s.total_frees + 1000) s.total_allocs)
        (check_health f s)
unfolding check_health
check_health-Reports f s h =
    rw
      (
        sym (damage s.double_free_attempts s.corrupted_blocks),
        sym (excess s.total_allocs s.total_frees h),
      )
      (flags-Reports _ _ _ _ _)
