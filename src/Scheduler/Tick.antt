-- ===== src/Scheduler/Tick.antt =====
-- internal/server/api/scheduler.go: one tick of the scheduler, and the hosts of a schedule
-- (internal/server/db/schedule.go has the record). What the tick writes to the database is the list
-- of its calls, in order; the errors of those calls are only logged.
pub mod Laws
use bongsu.Prelude.{
  ℕ, ◌+◌, Bool, true, false, not, ◌&&◌, ◌||◌, Option, none, some, List, [], ◌∷◌, ◌++◌, map,
  if◌then◌else◌,
}
use bongsu.Prelude.Result.{Result, ok, err}
use bongsu.Text.{Bytes, codes, is_empty, one_of, trim_space, split_on, drop_empty}
use bongsu.Scheduler.Next.{Calendar, NextError, one_hour, compute_next_run}

pub record ScheduledScan : Type 0 where
  pub id : Bytes
  pub name : Bytes
  pub cron_expr : Bytes
  pub scan_type : Bytes
  pub host_filter : Bytes
  pub packages_only : Bool

pub record Host : Type 0 where
  pub id : Bytes
  pub hostname : Bytes

pub record ScanRequest : Type 0 where
  pub host_id : Bytes
  pub scan_type : Bytes
  pub packages_only : Bool
  pub reason : Bytes

-- The calls that write: `CreateScanRequest`, and `UpdateScheduledScanRunTimes` with the last and the
-- next run.
pub data Call : Type 0 where
  create_scan_request : ScanRequest → Call
  update_run_times : Bytes → ℕ → ℕ → Call

-- The keys of `filterMap`.
unfoldable pub filter_keys : Bytes → List Bytes
unfolding split_on drop_empty trim_space
filter_keys host_filter = drop_empty (map trim_space (split_on b',' host_filter))

unfoldable pub host_ids : List Bytes → List Host → List Bytes
unfolding one_of
host_ids keys [] = []
host_ids keys (h ∷ hosts) =
    let rest = host_ids keys hosts in
    if one_of h.id keys || one_of h.hostname keys then h.id ∷ rest else rest

abbrev pub all_ids : List Host → List Bytes
all_ids = map (λ (h : Host). h.id)

-- `none` is the error of `ListHosts`.
unfoldable pub expand_host_filter : Option (List Host) → Bytes → Option (List Bytes)
unfolding filter_keys host_ids
expand_host_filter none host_filter = none
expand_host_filter (some hosts) host_filter =
    some (if is_empty host_filter then all_ids hosts else host_ids (filter_keys host_filter) hosts)

abbrev pub request_for : ScheduledScan → Bytes → Call
request_for s host_id = create_scan_request (record {
  host_id = host_id;
  scan_type = s.scan_type;
  packages_only = s.packages_only;
  reason = codes "scheduled: " ++ s.name;
})

-- An error of `computeNextRun` puts the next run an hour off.
abbrev pub or_in_an_hour : ℕ → Result NextError ℕ → ℕ
or_in_an_hour now (ok t) = t
or_in_an_hour now (err e) = now + one_hour

unfoldable pub next_run : Calendar → ScheduledScan → ℕ → ℕ
unfolding compute_next_run
next_run cal s now = or_in_an_hour now (compute_next_run cal s.cron_expr now)

-- The body of the loop over the schedules that are due.
unfoldable pub run_schedule : Calendar → Option (List Host) → ScheduledScan → ℕ → List Call
unfolding expand_host_filter next_run
run_schedule cal hosts s now = elim (expand_host_filter hosts s.host_filter) [
  | none ↦ []
  | some ids ↦ map (request_for s) ids ++ update_run_times s.id now (next_run cal s now) ∷ []
]

-- `list_hosts` is what `ListHosts` returns while a schedule is handled.
unfoldable pub run_schedules :
    Calendar → (ScheduledScan → Option (List Host)) → List ScheduledScan → ℕ → List Call
unfolding run_schedule
run_schedules cal list_hosts [] now = []
run_schedules cal list_hosts (s ∷ due) now =
    run_schedule cal (list_hosts s) s now ++ run_schedules cal list_hosts due now

-- `due` is what `GetDueScheduledScans` returns.
unfoldable pub run_scheduler_tick :
    Calendar → (ScheduledScan → Option (List Host)) → Option (List ScheduledScan) → ℕ → List Call
unfolding run_schedules
run_scheduler_tick cal list_hosts none now = []
run_scheduler_tick cal list_hosts (some due) now = run_schedules cal list_hosts due now
