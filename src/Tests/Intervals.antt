-- ===== src/Tests/Intervals.antt =====
-- The theorems on the intervals at concrete texts, and runs of `time.ParseDuration`.
use openclaw_operator.Prelude.{
  ◌*◌, ◌≤◌, String, ◌≡◌, ◌≢◌, refl, true, false, none, some, arith, eq_iff,
}
use openclaw_operator.Duration.{minute, hour, parse_duration}
use openclaw_operator.AutoUpdate.Intervals.{
  parse_check_interval, parse_health_check_timeout, parse_backup_timeout, intervals_bounded,
}

parse_duration_mixed :
    parse_duration "1h30m" ≡ some (record { negative = false; nanos = 90 * minute })
unfolding parse_duration
parse_duration_mixed = refl

parse_duration_fraction :
    parse_duration "-1.5s" ≡ some (record { negative = true; nanos = 1_500_000_000 })
unfolding parse_duration
parse_duration_fraction = refl

parse_duration_bad :
    (parse_duration "10" ≡ none) × (parse_duration ".s" ≡ none) × (parse_duration "" ≡ none)
unfolding parse_duration
parse_duration_bad = (refl, refl, refl)

intervals_bounded_example :
    (hour ≤ parse_check_interval "1s")
    × (parse_check_interval "1s" ≤ 168 * hour)
    × (2 * minute ≤ parse_health_check_timeout "1s")
    × (parse_health_check_timeout "1s" ≤ 30 * minute)
    × (5 * minute ≤ parse_backup_timeout "1s")
    × (parse_backup_timeout "1s" ≤ 24 * hour)
intervals_bounded_example = intervals_bounded "1s"

text_not_empty : ◌≢◌ {A = String} "6h" ""
text_not_empty p = ground (arith, (eq_iff "6h" "").1 p)
