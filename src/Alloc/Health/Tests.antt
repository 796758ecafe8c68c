-- ===== src/Alloc/Health/Tests.antt =====
-- The health of a fresh heap and of a damaged one.
use nt_rustos.Common.{◌*◌, ◌/◌, ◌-◌, ◌≡◌, refl, true}
use nt_rustos.Alloc.Stats
use nt_rustos.Alloc.Health.{
  Percentages, check_health, is_healthy, usage_percent, fragmentation_estimate, success_rate,
  corruption_detected,
}

-- Whole numbers in place of `f32`.
abbrev whole : Percentages
whole = record { percent = λ a b. a * 100 / b; missing_percent = λ a b. 100 - a * 100 / b }

fresh_is_healthy : is_healthy (check_health whole (Stats.new 65536)) ≡ true
unfolding is_healthy check_health usage_percent fragmentation_estimate success_rate Stats.new
fresh_is_healthy = refl

corruption_is_seen :
    check_health whole (record (Stats.new 65536) { corrupted_blocks = 1 }) ≡ corruption_detected
unfolding check_health usage_percent fragmentation_estimate success_rate Stats.new
corruption_is_seen = refl
