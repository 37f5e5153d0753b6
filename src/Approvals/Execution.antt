-- ===== src/Approvals/Execution.antt =====
-- The handlers of any number of callers, their statements interleaved. A handler that approves
-- has two steps here, as between its statements others may run: the claim, and the execution with
-- its rollback. The execution and the rollback count as one step, which the claim guards.
use bongsu.Prelude.{Bool, Option, none, some, List, [], ◌∷◌, if◌then◌else◌, Bool-cases, inl, inr}
use bongsu.Prelude.Result.{Result, ok, err}
use bongsu.Text.{Bytes, equal}
use bongsu.Approvals.{
  AiApproval, create_ai_approval, claim_ai_approval_for_approval, revert_ai_approval,
  reject_ai_approval,
}
use bongsu.Approvals.Actions.{unless_fails, Circumstance}
use bongsu.Approvals.Execute.{
  or_value, TriageSuppressPayload, Triage, no_triage, ActionError, execute_ai_action,
}
use bongsu.Approvals.Handlers.{reverted}
use bongsu.Approvals.Table.{IsTable}
use bongsu.Approvals.Laws.{
  create_ai_approval-IsTable, claim-IsTable, reject-IsTable, revert-IsTable,
}

-- A handler between its claim and its execution.
pub record Claim : Type 0 where
  pub id : Bytes
  pub action_type : Bytes
  pub proposed : Bytes
  pub actor : Bytes

-- The tables, the handlers under way, and the approvals executed so far.
pub record World : Type 0 where
  pub approvals : List AiApproval
  pub triage : Triage
  pub running : List Claim
  pub executed : List Bytes

abbrev pub start : World
start = record { approvals = []; triage = no_triage; running = []; executed = [] }

pub data Event : Type 0 where
  queued : Circumstance → AiApproval → Event
  claimed : Circumstance → Bytes → Bytes → Event
  carried_out : Circumstance → Bytes → Event
  rejects : Circumstance → Bytes → Bytes → Event

abbrev pub is_claim : Bytes → Claim → Bool
is_claim id c = equal c.id id

unfoldable pub claim_at : Bytes → List Claim → Option Claim
unfolding equal
claim_at id [] = none
claim_at id (c ∷ cs) = let rest = claim_at id cs in if is_claim id c then some c else rest

-- The handler is over.
unfoldable pub without : Bytes → List Claim → List Claim
unfolding equal
without id [] = []
without id (c ∷ cs) = let rest = without id cs in if is_claim id c then cs else c ∷ rest

abbrev pub with_claim : Bytes → Bytes → Option AiApproval → List Claim → List Claim
with_claim id by none cs = cs
with_claim id by (some row) cs =
    record { id = id; action_type = row.action_type; proposed = row.proposed; actor = by } ∷ cs

module _ (parse : Bytes → Option TriageSuppressPayload) (jsonb : Bytes → Bytes) where
  unfoldable pub after_result : Circumstance → Bytes → World → Result ActionError Triage → World
  unfolding without revert_ai_approval
  after_result w id s (err e) = record s {
    approvals = reverted w id s.approvals;
    running = without id s.running;
  }
  after_result w id s (ok triage) = record s {
    triage = triage;
    running = without id s.running;
    executed = id ∷ s.executed;
  }

  unfoldable pub execute_claim : Circumstance → Bytes → World → Option Claim → World
  unfolding after_result execute_ai_action
  execute_claim w id s none = s
  execute_claim w id s (some c) = after_result w id s (
      execute_ai_action parse w.upsert_fails w.rebuild_fails c.action_type c.proposed c.actor
        s.triage)

  unfoldable pub step : Event → World → World
  unfolding create_ai_approval claim_ai_approval_for_approval reject_ai_approval execute_claim
      claim_at
  step (queued w a) s = record s {
    approvals =
        or_value s.approvals
          (unless_fails w.create_fails (create_ai_approval jsonb w.new_id w.now a s.approvals));
  }
  step (claimed w id by) s =
      let result = claim_ai_approval_for_approval w.now id by s.approvals in
      if w.claim_fails
      then s
      else record s { approvals = result.0; running = with_claim id by result.1 s.running }
  step (carried_out w id) s = execute_claim w id s (claim_at id s.running)
  step (rejects w id by) s =
      if w.reject_fails
      then s
      else record s { approvals = (reject_ai_approval w.now id by s.approvals).0 }

  unfoldable pub run : List Event → World → World
  unfolding step
  run [] s = s
  run (e ∷ es) s = run es (step e s)

  reverted-IsTable :
      (w : Circumstance) (id : Bytes) (rows : List AiApproval)
      → IsTable rows
      → IsTable (reverted w id rows)
  reverted-IsTable w id rows t = elim (Bool-cases w.revert_fails) [
    | inl fails ↦ rw fails t
    | inr works ↦ rw works (revert-IsTable id rows t)
  ]

  after_result-IsTable :
      (w : Circumstance) (id : Bytes) (s : World) (r : Result ActionError Triage)
      → IsTable s.approvals
      → IsTable (after_result w id s r).approvals
  unfolding after_result
  after_result-IsTable w id s (ok triage) t = t
  after_result-IsTable w id s (err e) t = reverted-IsTable w id s.approvals t

  execute_claim-IsTable :
      (w : Circumstance) (id : Bytes) (s : World) (c : Option Claim)
      → IsTable s.approvals
      → IsTable (execute_claim w id s c).approvals
  unfolding execute_claim
  execute_claim-IsTable w id s none t = t
  execute_claim-IsTable w id s (some c) t =
      after_result-IsTable w id s
        (execute_ai_action parse w.upsert_fails w.rebuild_fails c.action_type c.proposed c.actor
          s.triage)
        t

  pub step-IsTable : (e : Event) (s : World) → IsTable s.approvals → IsTable (step e s).approvals
  unfolding step
  step-IsTable (queued w a) s t = elim (Bool-cases w.create_fails) [
    | inl fails ↦ rw fails t
    | inr works ↦ rw works (create_ai_approval-IsTable jsonb w.new_id w.now a s.approvals t)
  ]
  step-IsTable (claimed w id by) s t = elim (Bool-cases w.claim_fails) [
    | inl fails ↦ rw fails t
    | inr works ↦ rw works (claim-IsTable w.now id by s.approvals t)
  ]
  step-IsTable (carried_out w id) s t = execute_claim-IsTable w id s (claim_at id s.running) t
  step-IsTable (rejects w id by) s t = elim (Bool-cases w.reject_fails) [
    | inl fails ↦ rw fails t
    | inr works ↦ rw works (reject-IsTable w.now id by s.approvals t)
  ]

  pub run-IsTable :
      (es : List Event) (s : World) → IsTable s.approvals → IsTable (run es s).approvals
  unfolding run
  run-IsTable [] s t = t
  run-IsTable (e ∷ es) s t = run-IsTable es (step e s) (step-IsTable e s t)
