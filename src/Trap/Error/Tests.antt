-- ===== src/Trap/Error/Tests.antt =====
-- An error code at work.
use nt_rustos.Common.{ℕ, ◌≡◌, ◌<◌, ◌^◌, arith}
use nt_rustos.Trap.Error.{ErrorSource, ErrorLevel, new, source, level, number, is_fatal, is_level}
use nt_rustos.Trap.Error.RoundTrip.{new_round_trip}

abbrev page_fault : ℕ
page_fault = new ErrorSource.memory ErrorLevel.critical 13

new_round_trip_example :
    (source page_fault ≡ ErrorSource.memory)
    × (level page_fault ≡ ErrorLevel.critical)
    × (number page_fault ≡ 13)
    × (is_fatal page_fault ≡ is_level ErrorLevel.critical ErrorLevel.fatal)
    × (page_fault < 2 ^ 32)
new_round_trip_example = new_round_trip ErrorSource.memory ErrorLevel.critical 13 (omega arith)
