-- ===== src/Scheduler/Tests.antt =====
-- Cron expressions on concrete input.
use bongsu.Prelude.{
  ℕ, ◌+◌, ◌*◌, ◌/◌, ◌%◌, ◌≡◌, refl, true, false, some, List, [], ◌∷◌, map, arith, ltb, all_of,
}
use bongsu.Prelude.Result.{ok, err}
use bongsu.Text.{Bytes, codes, join}
use bongsu.Scheduler.Cron.{
  FieldMatcher, CronSchedule, in_minute, in_day_of_week, field_count, invalid_value, invalid_step,
  parse_cron, parse_cron_field,
}
use bongsu.Scheduler.Cron.RoundTrip.{single, between, parse_cron_field-print_field}
use bongsu.Scheduler.Cron.Decimal.{decimal}
use bongsu.Scheduler.Next.{
  Calendar, one_minute, one_hour, next_cron_time, next_minute, next_loop, cron_matches,
}
use bongsu.Scheduler.Next.First.{IsNext, next_cron_time-IsNext}
use bongsu.Scheduler.Tick.{ScheduledScan, Host, run_scheduler_tick}
use bongsu.Scheduler.Tick.Laws.{run_times, planned, run_scheduler_tick-later}

abbrev weekdays : Bytes
weekdays = codes "*/30 3 * * 1-5"

abbrev any_value : FieldMatcher
any_value = record { values = []; any = true }

abbrev only : List ℕ → FieldMatcher
only vs = record { values = vs; any = false }

abbrev weekday_nights : CronSchedule
weekday_nights = record {
  minute = only (0 ∷ 30 ∷ []);
  hour = only (3 ∷ []);
  day_of_month = any_value;
  month = any_value;
  day_of_week = only (1 ∷ 2 ∷ 3 ∷ 4 ∷ 5 ∷ []);
}

parse_runs :
    (parse_cron weekdays ≡ ok weekday_nights)
    × (parse_cron (codes "60 * * * *") ≡ err (in_minute (invalid_value (codes "60"))))
    × (parse_cron (codes "* * * * 7") ≡ err (in_day_of_week (invalid_value (codes "7"))))
    × (parse_cron (codes "*/0 * * * *") ≡ err (in_minute (invalid_step (codes "0"))))
    × (parse_cron (codes "0 3 * *") ≡ err (field_count 4))
unfolding parse_cron
parse_runs = (refl, refl, refl, refl, refl)

parse_cron_field-print_field_example :
    parse_cron_field (codes "1-9,30/4") 0 59 ≡ ok (only (1 ∷ 5 ∷ 9 ∷ []))
unfolding parse_cron_field decimal join
parse_cron_field-print_field_example =
    parse_cron_field-print_field 0 59 (between 1 9) (single 30 ∷ []) (some 4) (omega arith) refl
      refl

-- A calendar with one day, the first of March, which is a Monday.
abbrev march : Calendar
march = record {
  month_of = λ t. 3;
  day_of = λ t. 1;
  weekday_of = λ t. 1;
  hour_of = λ t. t / one_hour % 24;
  minute_of = λ t. t / one_minute % 60;
}

next_runs :
    (next_loop march weekday_nights 5 (3 * one_hour + 28 * one_minute)
      ≡ some (3 * one_hour + 30 * one_minute))
    × (next_minute (one_hour + 1) ≡ one_hour + one_minute)
unfolding next_loop next_minute cron_matches
next_runs = (refl, refl)

next_cron_time-IsNext_example :
    IsNext march weekday_nights 0 (next_cron_time march weekday_nights 0)
next_cron_time-IsNext_example = next_cron_time-IsNext march weekday_nights 0

abbrev nightly : ScheduledScan
nightly = record {
  id = codes "s1";
  name = codes "nightly";
  cron_expr = codes "0 0 29 2 *";
  scan_type = codes "full";
  host_filter = [];
  packages_only = false;
}

abbrev one_host : ScheduledScan → List Host
one_host s = record { id = codes "h1"; hostname = codes "web" } ∷ []

run_scheduler_tick-later_example :
    (run_times (run_scheduler_tick march (λ s. some (one_host s)) (some (nightly ∷ [])) 7)
      ≡ map (planned march 7) (nightly ∷ []))
    × (all_of (λ (t : Bytes × ℕ × ℕ). ltb 7 t.2) (map (planned march 7) (nightly ∷ [])) ≡ true)
run_scheduler_tick-later_example = run_scheduler_tick-later march one_host 7 (nightly ∷ [])
