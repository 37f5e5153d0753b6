-- ===== src/Approvals/Once.antt =====
-- An approval is executed at most once, however the handlers interleave.
use bongsu.Prelude.{
  ℕ, suc, ◌+◌, ◌≤◌, ◌≡◌, refl, Bool, false, Option, some, List, [], ◌∷◌, arith, if◌then◌else◌,
  Bool-cases, Option-cases, inl, inr,
}
use bongsu.Prelude.Result.{Result, ok, err}
use bongsu.Text.{Bytes, equal, equal_iff}
use bongsu.Approvals.{
  approved, rejected, AiApproval, count, find, is_open_at, is_approved_at, update_where, decided,
  undecided, pending_differ, create_ai_approval, claim_ai_approval_for_approval, revert_ai_approval,
  reject_ai_approval, as_stored,
}
use bongsu.Approvals.Actions.{Circumstance}
use bongsu.Approvals.Execute.{TriageSuppressPayload, Triage, ActionError, execute_ai_action}
use bongsu.Approvals.Handlers.{reverted}
use bongsu.Approvals.Table.{ids_differ, IsTable}
use bongsu.Approvals.Execution.{
  start, Claim, World, Event, queued, claimed, carried_out, rejects, is_claim, claim_at, without,
  with_claim, after_result, execute_claim, step, run, run-IsTable, step-IsTable,
}
use bongsu.Approvals.Counts.{
  approved_of, ids_differ-count, approved_of-le, count-update_where, approved_of-insert,
  approved_of-claim, claimed_same, is_open_at-approved, approved_of-revert,
}

-- The handlers under way for an approval, and the executions of it that are over.
abbrev pub is_it : Bytes → Bytes → Bool
is_it x y = equal y x

abbrev pub load : Bytes → World → ℕ
load x s = count (is_claim x) s.running + count (is_it x) s.executed

abbrev IsCovered : Bytes → World → Type 0
IsCovered x s = load x s ≤ approved_of x s.approvals

count-without :
    (x id : Bytes) (cs : List Claim) (c : Claim)
    → claim_at id cs ≡ some c
    → count (is_claim x) cs ≡ (
        if equal id x
        then suc (count (is_claim x) (without id cs))
        else count (is_claim x) (without id cs))
unfolding claim_at without
count-without x id [] c h = absurd (cc)
count-without x id (d ∷ cs) c h = elim (Bool-cases (is_claim id d)) [
  | inl hit ↦ rw (hit, (equal_iff d.id id).0 hit) refl
  | inr miss ↦ rw miss ground (arith, count-without x id cs c, h, miss)
]

approved_of-reverted :
    (x id : Bytes) (w : Circumstance) (rows : List AiApproval)
    → equal id x ≡ false
    → approved_of x (reverted w id rows) ≡ approved_of x rows
unfolding revert_ai_approval
approved_of-reverted x id w rows h = elim (Bool-cases w.revert_fails) [
  | inl fails ↦ rw fails refl
  | inr works ↦
      let next = update_where (is_approved_at id) undecided rows in
      elim (Bool-cases (pending_differ next)) [
        | inl differ ↦ rw (works, differ) (approved_of-revert x id rows h)
        | inr clash ↦ rw (works, clash) refl
      ]
]

-- A covered approval is loaded with one handler or one execution.
load-le : (x : Bytes) (s : World) → IsTable s.approvals → IsCovered x s → load x s ≤ 1
load-le x s t h =
    omega (arith, approved_of-le x s.approvals, ids_differ-count x s.approvals t.ids, h)

module _ (parse : Bytes → Option TriageSuppressPayload) (jsonb : Bytes → Bytes) where
  after_result-IsCovered :
      (x id : Bytes) (w : Circumstance) (s : World) (c : Claim) (r : Result ActionError Triage)
      → claim_at id s.running ≡ some c
      → IsTable s.approvals
      → IsCovered x s
      → IsCovered x (after_result parse jsonb w id s r)
  unfolding after_result
  after_result-IsCovered x id w s c (ok triage) at t h =
      ground (arith, count-without x id s.running c at, h)
  after_result-IsCovered x id w s c (err e) at t h = elim (Bool-cases (equal id x)) [
    | inl same ↦ ground (arith, count-without x id s.running c at, load-le x s t h, same)
    | inr other ↦
        rw (approved_of-reverted x id w s.approvals other) ground
          (arith, count-without x id s.running c at, h, other)
  ]

  execute_claim-IsCovered :
      (x id : Bytes) (w : Circumstance) (s : World)
      → IsTable s.approvals
      → IsCovered x s
      → IsCovered x (execute_claim parse jsonb w id s (claim_at id s.running))
  unfolding execute_claim
  execute_claim-IsCovered x id w s t h = elim (Option-cases (claim_at id s.running)) [
    | inl over ↦ rw over h
    | inr (c, at) ↦ rw at (
        after_result-IsCovered x id w s c
          (execute_ai_action parse w.upsert_fails w.rebuild_fails c.action_type c.proposed c.actor
            s.triage)
          at t h)
  ]

  claimed-IsCovered :
      (x id by : Bytes) (now : ℕ) (s : World)
      → IsCovered x s
      → count (is_claim x) (with_claim id by (find (is_open_at id) s.approvals) s.running)
          + count (is_it x) s.executed
        ≤ approved_of x (update_where (is_open_at id) (decided approved now by) s.approvals)
  claimed-IsCovered x id by now s h = elim (Option-cases (find (is_open_at id) s.approvals)) [
    | inl closed ↦ rw closed omega (arith, approved_of-claim x id by now s.approvals, h)
    | inr (row, open_row) ↦ elim (Bool-cases (equal id x)) [
      | inl same ↦
          rw (open_row, same) omega
            (arith, claimed_same x id by now s.approvals row open_row same, h)
      | inr other ↦ rw (open_row, other) omega (arith, approved_of-claim x id by now s.approvals, h)
    ]
  ]

  step-IsCovered :
      (x : Bytes) (e : Event) (s : World)
      → IsTable s.approvals
      → IsCovered x s
      → IsCovered x (step parse jsonb e s)
  unfolding step create_ai_approval claim_ai_approval_for_approval reject_ai_approval
  step-IsCovered x (queued w a) s t h = elim (Bool-cases w.create_fails) [
    | inl fails ↦ rw fails h
    | inr works ↦ rw (works, approved_of-insert x w.new_id w.now (as_stored jsonb a) s.approvals) h
  ]
  step-IsCovered x (claimed w id by) s t h = elim (Bool-cases w.claim_fails) [
    | inl fails ↦ rw fails h
    | inr works ↦ rw works (claimed-IsCovered x id by w.now s h)
  ]
  step-IsCovered x (carried_out w id) s t h = execute_claim-IsCovered x id w s t h
  step-IsCovered x (rejects w id by) s t h = elim (Bool-cases w.reject_fails) [
    | inl fails ↦ rw fails h
    | inr works ↦
        rw
          (
            works,
            count-update_where (is_approved_at x) (is_open_at by) (decided rejected w.now id)
                s.approvals (is_open_at-approved x id by w.now),
          )
          h
  ]

  run-IsCovered :
      (x : Bytes) (es : List Event) (s : World)
      → IsTable s.approvals
      → IsCovered x s
      → IsCovered x (run parse jsonb es s)
  unfolding run
  run-IsCovered x [] s t h = h
  run-IsCovered x (e ∷ es) s t h =
      run-IsCovered x es (step parse jsonb e s) (step-IsTable parse jsonb e s t)
        (step-IsCovered x e s t h)

empty-IsTable : IsTable []
unfolding ids_differ pending_differ
empty-IsTable = record { ids = refl; clean = refl; actions = refl }

-- After whatever statements on approvals in whatever order, from an empty table, the rows have
-- identifiers that differ, a pending row has no decision on it, and no two pending rows are of
-- the same action type and subject.
pub reachable-IsTable :
    (parse : Bytes → Option TriageSuppressPayload) (jsonb : Bytes → Bytes) (es : List Event)
    → IsTable (run parse jsonb es start).approvals
reachable-IsTable parse jsonb es = run-IsTable parse jsonb es start empty-IsTable

-- From an empty table, whatever statements on approvals any number of callers run in whatever
-- order, with whatever failures of the database, the action of an approval is executed with
-- success at most once.
pub executed_once :
    (parse : Bytes → Option TriageSuppressPayload) (jsonb : Bytes → Bytes) (es : List Event)
    (x : Bytes)
    → count (is_it x) (run parse jsonb es start).executed ≤ 1
executed_once parse jsonb es x =
    let table = run-IsTable parse jsonb es start empty-IsTable in
    let covered = run-IsCovered parse jsonb x es start empty-IsTable (omega arith) in
    omega (arith, load-le x (run parse jsonb es start) table covered)
