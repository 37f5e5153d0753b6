-- ===== src/Scheduler/Next.antt =====
-- internal/server/api/scheduler.go: the next time of a cron expression. A time is a number of
-- nanoseconds since Go's zero time, and the fields that the package `time` reads off it in the
-- server's zone are a parameter.
pub mod First
use bongsu.Prelude.{
  ℕ, zero, suc, ◌+◌, ◌*◌, ◌/◌, ◌^◌, Bool, true, false, ◌&&◌, Option, none, some, if◌then◌else◌,
}
use bongsu.Prelude.Result.{Result, ok, err, map_err, ◌>>=◌}
use bongsu.Text.{Bytes}
use bongsu.Scheduler.Cron.{CronSchedule, CronError, parse_cron, matches}

-- `t.Month()`, `t.Day()`, `t.Weekday()`, `t.Hour()` and `t.Minute()`.
pub record Calendar : Type 0 where
  pub month_of : ℕ → ℕ
  pub day_of : ℕ → ℕ
  pub weekday_of : ℕ → ℕ
  pub hour_of : ℕ → ℕ
  pub minute_of : ℕ → ℕ

-- `time.Minute`.
abbrev pub one_minute : ℕ
one_minute = 60 * 10 ^ 9

abbrev pub one_hour : ℕ
one_hour = 60 * one_minute

abbrev pub max_iter : ℕ
max_iter = 525960

unfoldable pub cron_matches : Calendar → CronSchedule → ℕ → Bool
cron_matches cal s t =
    matches s.month (cal.month_of t)
    && matches s.day_of_month (cal.day_of t)
    && matches s.day_of_week (cal.weekday_of t)
    && matches s.hour (cal.hour_of t)
    && matches s.minute (cal.minute_of t)

-- The loop, over the rounds that are left; `none` is `time.Time{}`.
unfoldable pub next_loop : Calendar → CronSchedule → ℕ → ℕ → Option ℕ
next_loop cal s zero t = none
next_loop cal s (suc rounds) t =
    let later = next_loop cal s rounds (t + one_minute) in
    if cron_matches cal s t then some t else later

-- `after.Add(time.Minute).Truncate(time.Minute)`
unfoldable pub next_minute : ℕ → ℕ
next_minute after = (after + one_minute) / one_minute * one_minute

unfoldable pub next_cron_time : Calendar → CronSchedule → ℕ → Option ℕ
unfolding next_minute
next_cron_time cal s after = next_loop cal s max_iter (next_minute after)

pub data NextError : Type 0 where
  bad_expression : CronError → NextError
  no_time : Bytes → NextError

abbrev pub found_or : Bytes → Option ℕ → Result NextError ℕ
found_or expr none = err (no_time expr)
found_or expr (some t) = ok t

unfoldable pub compute_next_run : Calendar → Bytes → ℕ → Result NextError ℕ
unfolding parse_cron
compute_next_run cal expr now =
    map_err bad_expression (parse_cron expr) >>= λ s. found_or expr (next_cron_time cal s now)
