-- ===== src/Notify/Slots.antt =====
-- internal/server/api/notify.go: the deliveries of `Send` that run at once. The channel `sem` is the
-- number of its elements, and a delivery is a goroutine that ends at any time later.
use bongsu.Prelude.{
  ℕ, suc, ◌+◌, ◌-◌, ◌≤◌, ◌≡◌, List, [], ◌∷◌, arith, length, ltb, ◌==◌, if◌then◌else◌,
}
use bongsu.Text.{codes}
use bongsu.Notify.Webhook.{Report, Reply, send_event}

-- What happens to the notifier, with a channel of the capacity `cap`.
pub data Event : Type 0 where
  sends : Event
  ends : (ℕ → Reply) → Event

pub record Slots : Type 0 where
  pub in_flight : ℕ
  pub reports : List Report

abbrev pub idle : Slots
idle = record { in_flight = 0; reports = [] }

abbrev pub dropped : Report
dropped = record {
  status = codes "dropped";
  http_status = 0;
  err_msg = codes "delivery concurrency limit reached";
  attempts = 0;
}

-- An `ends` with no delivery under way does not happen, and changes nothing here.
unfoldable pub step : ℕ → ℕ → Event → Slots → Slots
unfolding send_event
step cap max_attempts sends s =
    if ltb s.in_flight cap
    then record s { in_flight = suc s.in_flight }
    else record s { reports = dropped ∷ s.reports }
step cap max_attempts (ends reply) s =
    if s.in_flight == 0
    then s
    else record { in_flight = s.in_flight - 1; reports = send_event max_attempts reply ∷ s.reports }

unfoldable pub run : ℕ → ℕ → List Event → Slots → Slots
unfolding step
run cap max_attempts [] s = s
run cap max_attempts (e ∷ es) s = run cap max_attempts es (step cap max_attempts e s)

abbrev pub sent_count : List Event → ℕ
sent_count [] = 0
sent_count (sends ∷ es) = suc (sent_count es)
sent_count (ends reply ∷ es) = sent_count es

-- The events that are reported or under way.
abbrev accounted : Slots → ℕ
accounted s = s.in_flight + length s.reports

step-le :
    (cap max_attempts : ℕ) (e : Event) (s : Slots)
    → s.in_flight ≤ cap
    → (step cap max_attempts e s).in_flight ≤ cap
unfolding step
step-le cap max_attempts sends s h = ground (arith, h)
step-le cap max_attempts (ends reply) s h = ground (arith, h)

accounted-sends :
    (cap max_attempts : ℕ) (s : Slots)
    → accounted (step cap max_attempts sends s) ≡ suc (accounted s)
unfolding step
accounted-sends cap max_attempts s = ground arith

accounted-ends :
    (cap max_attempts : ℕ) (reply : ℕ → Reply) (s : Slots)
    → accounted (step cap max_attempts (ends reply) s) ≡ accounted s
unfolding step
accounted-ends cap max_attempts reply s = ground arith

run_lem :
    (cap max_attempts : ℕ) (es : List Event) (s : Slots)
    → s.in_flight ≤ cap
    → let r = run cap max_attempts es s in
      (r.in_flight ≤ cap) × (accounted r ≡ accounted s + sent_count es)
unfolding run
run_lem cap max_attempts [] s h = (h, omega arith)
run_lem cap max_attempts (sends ∷ es) s h =
    let (low, all) =
      run_lem cap max_attempts es (step cap max_attempts sends s)
        (step-le cap max_attempts sends s h) in
    (low, omega (arith, all, accounted-sends cap max_attempts s))
run_lem cap max_attempts (ends reply ∷ es) s h =
    let (low, all) =
      run_lem cap max_attempts es (step cap max_attempts (ends reply) s)
        (step-le cap max_attempts (ends reply) s h) in
    (low, omega (arith, all, accounted-ends cap max_attempts reply s))

-- In whatever order events are sent and deliveries end, from an idle notifier, no more deliveries
-- are under way than the channel holds, and the events sent are as many as those under way and
-- those reported, as dropped or by their delivery.
pub run-accounted :
    (cap max_attempts : ℕ) (es : List Event)
    → let r = run cap max_attempts es idle in
      (r.in_flight ≤ cap) × (r.in_flight + length r.reports ≡ sent_count es)
run-accounted cap max_attempts es =
    let (low, all) = run_lem cap max_attempts es idle (omega arith) in (low, omega (arith, all))
