-- ===== src/AutoUpdate/Intervals.antt =====
-- `parseCheckInterval` and `parseHealthCheckTimeout` of internal/controller/autoupdate.go,
-- `parseBackupTimeout` of internal/controller/backup.go, and the bounds that `validate` of
-- internal/webhook/openclawinstance_webhook.go checks. All results are in nanoseconds.
use openclaw_operator.Prelude.{
  ℕ, ◌*◌, ◌≤◌, String, ◌≡◌, ◌≢◌, Option, none, some, arith, ◌==◌, eq_iff, if◌then◌else◌,
}
use openclaw_operator.Duration.{Duration, minute, hour, parse_duration, below, above}

-- `if d < lo { return lo }; if d > hi { return hi }; return d`
abbrev clamp : ℕ → ℕ → Duration → ℕ
clamp lo hi d = if below d lo then lo else if above d hi then hi else d.nanos

unfoldable pub parse_check_interval : String → ℕ
parse_check_interval s =
    if s == ""
    then 24 * hour
    else elim (parse_duration s) [ none ↦ 24 * hour | some d ↦ clamp hour (168 * hour) d ]

abbrev pub default_health_check_timeout : ℕ
default_health_check_timeout = 10 * minute

unfoldable pub parse_health_check_timeout : String → ℕ
parse_health_check_timeout s =
    if s == "" then default_health_check_timeout else elim (parse_duration s) [
      | none ↦ default_health_check_timeout
      | some d ↦ clamp (2 * minute) (30 * minute) d
    ]

abbrev pub default_backup_timeout : ℕ
default_backup_timeout = 30 * minute

unfoldable pub parse_backup_timeout : String → ℕ
parse_backup_timeout s = if s == "" then default_backup_timeout else elim (parse_duration s) [
  | none ↦ default_backup_timeout
  | some d ↦ clamp (5 * minute) (24 * hour) d
]

-- The checks of the webhook on `checkInterval` and on `healthCheckTimeout`.
pub data BoundError : Type 0 where
  invalid_duration too_short too_long : BoundError

abbrev check_bounds : ℕ → ℕ → String → Option BoundError
check_bounds lo hi s = if s == "" then none else elim (parse_duration s) [
  | none ↦ some invalid_duration
  | some d ↦ if below d lo then some too_short else if above d hi then some too_long else none
]

unfoldable pub check_check_interval : String → Option BoundError
check_check_interval s = check_bounds hour (168 * hour) s

unfoldable pub check_health_check_timeout : String → Option BoundError
check_health_check_timeout s = check_bounds (2 * minute) (30 * minute) s

-- Whatever the texts are, the intervals that the controller uses stay within their bounds.
pub intervals_bounded :
    (s : String)
    → (hour ≤ parse_check_interval s)
      × (parse_check_interval s ≤ 168 * hour)
      × (2 * minute ≤ parse_health_check_timeout s)
      × (parse_health_check_timeout s ≤ 30 * minute)
      × (5 * minute ≤ parse_backup_timeout s)
      × (parse_backup_timeout s ≤ 24 * hour)
unfolding parse_check_interval parse_health_check_timeout parse_backup_timeout
intervals_bounded s = ground arith

-- A text that the webhook accepts is used as it is written: the controller clamps nothing.
pub accepted_interval_exact :
    (s : String) (d : Duration)
    → parse_duration s ≡ some d
    → s ≢ ""
    → (check_check_interval s ≡ none → parse_check_interval s ≡ d.nanos)
      × (check_health_check_timeout s ≡ none → parse_health_check_timeout s ≡ d.nanos)
unfolding parse_check_interval parse_health_check_timeout check_check_interval
    check_health_check_timeout
accepted_interval_exact s d h n = ground (arith, eq_iff s "")
