-- ===== src/Scheduler/Tick/Laws.antt =====
-- Where a tick leaves the schedules that were due.
use bongsu.Prelude.{
  ℕ, ◌+◌, ◌<◌, ◌≡◌, refl, ap, ◌∙◌, true, Option, none, some, List, [], ◌∷◌, ◌++◌, map, arith, ltb,
  if◌then◌else◌, all_of, inl, inr, lt→ltb,
}
use bongsu.Prelude.Result.{ok, Result-cases}
use bongsu.Text.{Bytes, is_empty}
use bongsu.Scheduler.Cron.{CronSchedule, parse_cron}
use bongsu.Scheduler.Next.{Calendar, one_hour, next_cron_time, found_or, compute_next_run}
use bongsu.Scheduler.Next.First.{IsNext, NoMatch, last_minute, next_cron_time-IsNext}
use bongsu.Scheduler.Tick.{
  ScheduledScan, Host, Call, create_scan_request, update_run_times, expand_host_filter, all_ids,
  host_ids, filter_keys, request_for, or_in_an_hour, next_run, run_schedule, run_schedules,
  run_scheduler_tick,
}

-- The run times that the calls write: the id, the last run and the next.
abbrev pub RunTimes : Type 0
RunTimes = Bytes × ℕ × ℕ

abbrev pub run_times : List Call → List RunTimes
run_times [] = []
run_times (create_scan_request r ∷ calls) = run_times calls
run_times (update_run_times id last next ∷ calls) = (id, last, next) ∷ run_times calls

run_times-append : (c d : List Call) → run_times (c ++ d) ≡ run_times c ++ run_times d
run_times-append [] d = refl
run_times-append (create_scan_request r ∷ c) d = run_times-append c d
run_times-append (update_run_times id last next ∷ c) d =
    ap (◌∷◌ (id, last, next)) (run_times-append c d)

-- The requests of a schedule write no run times.
run_times-requests :
    (s : ScheduledScan) (ids : List Bytes) (calls : List Call)
    → run_times (map (request_for s) ids ++ calls) ≡ run_times calls
run_times-requests s [] calls = refl
run_times-requests s (id ∷ ids) calls = run_times-requests s ids calls

-- The next run of a schedule lies ahead.
found-later :
    (cal : Calendar) (s : CronSchedule) (now : ℕ) (o : Option ℕ) (expr : Bytes)
    → IsNext cal s now o
    → now < or_in_an_hour now (found_or expr o)
found-later cal s now none expr h = omega arith
found-later cal s now (some t) expr h = h.0

next_run-later : (cal : Calendar) (s : ScheduledScan) (now : ℕ) → now < next_run cal s now
unfolding next_run compute_next_run
next_run-later cal s now = elim (Result-cases (parse_cron s.cron_expr)) [
  | inl (c, e) ↦ rw e (
      found-later cal c now (next_cron_time cal c now) s.cron_expr
        (next_cron_time-IsNext cal c now))
  | inr (x, e) ↦ rw e (omega arith)
]

abbrev pub planned : Calendar → ℕ → ScheduledScan → RunTimes
planned cal now s = (s.id, now, next_run cal s now)

module _ (cal : Calendar) (hosts : ScheduledScan → List Host) (now : ℕ) where
  run_schedule-run_times :
      (s : ScheduledScan)
      → run_times (run_schedule cal (some (hosts s)) s now) ≡ planned cal now s ∷ []
  unfolding run_schedule expand_host_filter
  run_schedule-run_times s =
      let ids =
        if is_empty s.host_filter
        then all_ids (hosts s)
        else host_ids (filter_keys s.host_filter) (hosts s) in
      run_times-requests s ids (update_run_times s.id now (next_run cal s now) ∷ [])

  run_schedules-run_times :
      (due : List ScheduledScan)
      → run_times (run_schedules cal (λ s. some (hosts s)) due now) ≡ map (planned cal now) due
  unfolding run_schedules
  run_schedules-run_times [] = refl
  run_schedules-run_times (s ∷ due) =
      run_times-append (run_schedule cal (some (hosts s)) s now) _
      ∙ rw (run_schedule-run_times s, run_schedules-run_times due)

  planned-later :
      (due : List ScheduledScan)
      → all_of (λ (t : RunTimes). ltb now t.2) (map (planned cal now) due) ≡ true
  planned-later [] = refl
  planned-later (s ∷ due) = rw (lt→ltb now _ (next_run-later cal s now), planned-later due)

-- When `ListHosts` succeeds, a tick updates the run times of each due schedule once and in order,
-- to the time of the tick as the last run and to a time after it as the next one, whatever the
-- expression.
pub run_scheduler_tick-later :
    (cal : Calendar) (hosts : ScheduledScan → List Host) (now : ℕ) (due : List ScheduledScan)
    → (run_times (run_scheduler_tick cal (λ s. some (hosts s)) (some due) now)
        ≡ map (planned cal now) due)
      × (all_of (λ (t : RunTimes). ltb now t.2) (map (planned cal now) due) ≡ true)
unfolding run_scheduler_tick
run_scheduler_tick-later cal hosts now due =
    (run_schedules-run_times cal hosts now due, planned-later cal hosts now due)

missed-in_an_hour :
    (cal : Calendar) (c : CronSchedule) (now : ℕ) (o : Option ℕ) (expr : Bytes)
    → NoMatch cal c now (last_minute now + 1)
    → IsNext cal c now o
    → or_in_an_hour now (found_or expr o) ≡ now + one_hour
missed-in_an_hour cal c now none expr none_match h = refl
missed-in_an_hour cal c now (some t) expr none_match (l, e, w, m, h) =
    absurd (ground (arith, none_match t l (omega arith) w, m))

-- A schedule whose expression parses but matches no whole minute among those after the tick, up
-- to the last that `nextCronTime` tries, gets as its next run the time one hour after the tick.
pub next_run-in_an_hour :
    (cal : Calendar) (s : ScheduledScan) (now : ℕ) {c : CronSchedule}
    → parse_cron s.cron_expr ≡ ok c
    → NoMatch cal c now (last_minute now + 1)
    → next_run cal s now ≡ now + one_hour
unfolding next_run compute_next_run
next_run-in_an_hour cal s now {c} e none_match = rw e (
    missed-in_an_hour cal c now (next_cron_time cal c now) s.cron_expr none_match
      (next_cron_time-IsNext cal c now))
