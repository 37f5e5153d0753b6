-- ===== src/Approvals/Suppressing.antt =====
-- What the executor writes: whatever payload is stored, only a status that suppresses.
use bongsu.Prelude.{
  ◌≡◌, refl, Bool, true, false, not, ◌||◌, Option, none, some, List, [], ◌∷◌, arith, all_of, any_of,
  ◌&&◌, Bool-cases, inl, inr,
}
use bongsu.Prelude.Result.{Result, ok, err, Ensures, Ensures->>=, Ensures-weaken}
use bongsu.Prelude.Sort.{all_of-filter}
use bongsu.Text.{Bytes, codes, equal, equal_self, is_empty}
use bongsu.Approvals.Actions.{Circumstance}
use bongsu.Approvals.Execute.{
  rebuild_summaries, TriageSuppressPayload, is_suppressing, or_open, is_same_finding,
  upsert_vulnerability_triage, checked, triage_of, VulnerabilityTriage, ActionError, Triage,
  write_triage, execute_ai_action,
}
use bongsu.Approvals.Execution.{
  start, Claim, World, Event, queued, claimed, carried_out, rejects, claim_at, after_result,
  execute_claim, step, run,
}

-- The only two statuses that the executor may set.
abbrev sets_silence : Bytes → Bool
sets_silence status = equal status (codes "false_positive") || equal status (codes "accepted_risk")

abbrev names_same : VulnerabilityTriage → VulnerabilityTriage → Bool
names_same row t =
    equal t.pkg_name row.pkg_name
    && equal t.host_id row.host_id
    && equal t.vulnerability_id row.vulnerability_id

-- The row has one of the two statuses, and when the rebuilds work, the summaries of its finding
-- were rebuilt.
abbrev pub is_settled : Bool → List VulnerabilityTriage → VulnerabilityTriage → Bool
is_settled works rebuilt row =
    sets_silence row.status && (not works || any_of (names_same row) rebuilt)

abbrev pub IsSettled : Bool → Triage → Type 0
IsSettled works t = all_of (is_settled works t.rebuilt) t.rows ≡ true

-- The rebuild of the summaries does not fail.
abbrev pub rebuild_works : Event → Bool
rebuild_works (carried_out w id) = not w.rebuild_fails
rebuild_works _ = true

or_open-suppresses :
    (status : Bytes) → sets_silence status ≡ true → sets_silence (or_open status) ≡ true
unfolding equal
or_open-suppresses [] h = absurd (ground (arith, h))
or_open-suppresses (b ∷ bs) h = h

-- What holds of the rows before and of the new one holds of the rows after.
pub write_triage-all_of :
    (q : VulnerabilityTriage → Bool) (fails breaks : Bool) (t : VulnerabilityTriage) (s : Triage)
    → q (record t { status = or_open t.status }) ≡ true
    → all_of q s.rows ≡ true
    → Ensures
        (λ (next : Triage).
          (next.rebuilt ≡ rebuild_summaries breaks t s.rebuilt) × (all_of q next.rows ≡ true))
        (write_triage fails breaks t s)
unfolding write_triage upsert_vulnerability_triage
write_triage-all_of q fails breaks t s new old = elim (Bool-cases (is_empty t.vulnerability_id)) [
  | inl nameless ↦ rw nameless tt
  | inr named ↦ elim (Bool-cases fails) [
    | inl down ↦ rw (named, down) tt
    | inr up ↦
        rw (named, up) rw new
          (
            refl,
            all_of-filter q (λ (row : VulnerabilityTriage). not (is_same_finding t row)) s.rows old,
          )
  ]
]

is_settled-rebuilt :
    (works breaks : Bool) (t : VulnerabilityTriage) (rebuilt rows : List VulnerabilityTriage)
    → all_of (is_settled works rebuilt) rows ≡ true
    → all_of (is_settled works (rebuild_summaries breaks t rebuilt)) rows ≡ true
is_settled-rebuilt works true t rebuilt rows h = h
is_settled-rebuilt works false t rebuilt [] h = refl
is_settled-rebuilt works false t rebuilt (row ∷ rows) h =
    ground (arith, is_settled-rebuilt works false t rebuilt rows, h)

names_same_refl :
    (t : VulnerabilityTriage) (status : Bytes) → names_same (record t { status = status }) t ≡ true
names_same_refl t status =
    rw (equal_self t.vulnerability_id, equal_self t.host_id, equal_self t.pkg_name) refl

-- The row just written, whose summaries were rebuilt unless that failed.
is_settled-written :
    (works breaks : Bool) (t : VulnerabilityTriage) (rebuilt : List VulnerabilityTriage)
    → (not works || not breaks) ≡ true
    → sets_silence t.status ≡ true
    → is_settled works (rebuild_summaries breaks t rebuilt) (record t { status = or_open t.status })
      ≡ true
is_settled-written false breaks t rebuilt e h = rw (or_open-suppresses t.status h) refl
is_settled-written true true t rebuilt e h = absurd (cc)
is_settled-written true false t rebuilt e h =
    rw (or_open-suppresses t.status h, names_same_refl t (or_open t.status)) refl

write_triage-IsSettled :
    (works fails breaks : Bool) (t : VulnerabilityTriage) (s : Triage)
    → (not works || not breaks) ≡ true
    → sets_silence t.status ≡ true
    → IsSettled works s
    → Ensures (IsSettled works) (write_triage fails breaks t s)
write_triage-IsSettled works fails breaks t s e h k =
    Ensures-weaken (λ next (same, all). rw same all) (write_triage fails breaks t s)
      (write_triage-all_of (is_settled works (rebuild_summaries breaks t s.rebuilt)) fails breaks t
        s (is_settled-written works breaks t s.rebuilt e h)
        (is_settled-rebuilt works breaks t s.rebuilt s.rows k))

checked-suppresses :
    (o : Option TriageSuppressPayload)
    → Ensures (λ (p : TriageSuppressPayload). sets_silence p.triage_status ≡ true) (checked o)
unfolding checked
checked-suppresses none = tt
checked-suppresses (some p) =
    elim (Bool-cases (is_empty p.vulnerability_id || not (is_suppressing p.triage_status))) [
      | inl bad ↦ rw bad tt
      | inr good ↦ rw good ground (arith, good)
    ]

execute-IsSettled :
    (parse : Bytes → Option TriageSuppressPayload) (works fails breaks : Bool)
    (action proposed actor : Bytes) (s : Triage)
    → (not works || not breaks) ≡ true
    → IsSettled works s
    → Ensures (IsSettled works) (execute_ai_action parse fails breaks action proposed actor s)
unfolding execute_ai_action
execute-IsSettled parse works fails breaks action proposed actor s e h =
    elim (Bool-cases (equal action (codes "triage.suppress"))) [
      | inl known ↦ rw known (
          Ensures->>= (λ (p : TriageSuppressPayload). sets_silence p.triage_status ≡ true)
            (IsSettled works) (checked (parse proposed))
            (λ (p : TriageSuppressPayload). write_triage fails breaks (triage_of actor p) s)
            (checked-suppresses (parse proposed))
            (λ p k. write_triage-IsSettled works fails breaks (triage_of actor p) s e k h))
      | inr unknown ↦ rw unknown tt
    ]

module _ (parse : Bytes → Option TriageSuppressPayload) (jsonb : Bytes → Bytes) (works : Bool) where
  after_result-IsSettled :
      (w : Circumstance) (id : Bytes) (s : World) (r : Result ActionError Triage)
      → IsSettled works s.triage
      → Ensures (IsSettled works) r
      → IsSettled works (after_result parse jsonb w id s r).triage
  unfolding after_result
  after_result-IsSettled w id s (ok triage) h k = k
  after_result-IsSettled w id s (err e) h k = h

  execute_claim-IsSettled :
      (w : Circumstance) (id : Bytes) (s : World) (c : Option Claim)
      → (not works || not w.rebuild_fails) ≡ true
      → IsSettled works s.triage
      → IsSettled works (execute_claim parse jsonb w id s c).triage
  unfolding execute_claim
  execute_claim-IsSettled w id s none e h = h
  execute_claim-IsSettled w id s (some c) e h =
      after_result-IsSettled w id s
        (execute_ai_action parse w.upsert_fails w.rebuild_fails c.action_type c.proposed c.actor
          s.triage)
        h
        (execute-IsSettled parse works w.upsert_fails w.rebuild_fails c.action_type c.proposed
          c.actor s.triage e h)

  step-IsSettled :
      (e : Event) (s : World)
      → (not works || rebuild_works e) ≡ true
      → IsSettled works s.triage
      → IsSettled works (step parse jsonb e s).triage
  unfolding step
  step-IsSettled (queued w a) s e h = h
  step-IsSettled (claimed w id by) s e h = elim (Bool-cases w.claim_fails) [
    | inl fails ↦ rw fails h
    | inr succeeds ↦ rw succeeds h
  ]
  step-IsSettled (carried_out w id) s e h =
      execute_claim-IsSettled w id s (claim_at id s.running) e h
  step-IsSettled (rejects w id by) s e h = elim (Bool-cases w.reject_fails) [
    | inl fails ↦ rw fails h
    | inr succeeds ↦ rw succeeds h
  ]

  run-IsSettled :
      (es : List Event) (s : World)
      → (not works || all_of rebuild_works es) ≡ true
      → IsSettled works s.triage
      → IsSettled works (run parse jsonb es s).triage
  unfolding run
  run-IsSettled [] s e h = h
  run-IsSettled (e ∷ es) s k h =
      run-IsSettled es (step parse jsonb e s) (ground (arith, k))
        (step-IsSettled e s (ground (arith, k)) h)

not_or_self : (b : Bool) → (not b || b) ≡ true
not_or_self true = refl
not_or_self false = refl

-- Whatever payloads the approvals hold, every row of the triage that their execution writes, in
-- whatever order the callers run, has the status accepted_risk or false_positive; and when none
-- of the rebuilds of the summaries in these executions fails, the summaries of the packages were
-- rebuilt for its finding.
pub run_settles :
    (parse : Bytes → Option TriageSuppressPayload) (jsonb : Bytes → Bytes) (es : List Event)
    → IsSettled (all_of rebuild_works es) (run parse jsonb es start).triage
run_settles parse jsonb es =
    run-IsSettled parse jsonb (all_of rebuild_works es) es start
      (not_or_self (all_of rebuild_works es)) refl
