-- ===== src/Approvals/Actions.antt =====
-- internal/server/api/ai_actions.go: how an action of the AI becomes a change of the data, from
-- the policy engine on. `parse` and `marshal` are encoding/json on the payload, a time is the one
-- of the statement, and the faults say which statements of the database fail.
use bongsu.Prelude.{ℕ, Bool, true, false, Option, none, some, List, [], ◌∷◌, ◌++◌, if◌then◌else◌}
use bongsu.Prelude.Result.{Result, ok, err}
use bongsu.Text.{Bytes, codes, equal, is_empty}
use bongsu.Aipolicy.{Outcome, apply, queue, none, Request, Decision, Config, decide}
use bongsu.Approvals.{AiApproval, pending, create_ai_approval}
use bongsu.Approvals.Execute.{TriageSuppressPayload, Triage, ActionError, execute_ai_action}

-- `triageStatusForAction`
unfoldable pub triage_status_for_action : Bytes → Bytes
unfolding equal
triage_status_for_action action =
    if equal action (codes "false_positive")
    then codes "false_positive"
    else if equal action (codes "accept_risk")
    then codes "accepted_risk"
    else []

-- A finding with what the database knows of it. Scores are numbers of tenths, and the EPSS score is
-- one of ten-thousandths.
pub record AnalysisCandidate : Type 0 where
  pub vulnerability_id : Bytes
  pub pkg_name : Bytes
  pub host_id : Bytes
  pub hostname : Bytes
  pub severity : Bytes
  pub cvss_score : ℕ
  pub epss_score : ℕ
  pub known_exploited : Bool
  pub installed_version : Bytes
  pub fixed_version : Bytes
  pub ecosystem : Bytes
  pub environment : Bytes
  pub criticality : Bytes
  pub title : Bytes
  pub description : Bytes
  pub host_network_exposed : Bool
  pub stored_input_hash : Bytes

-- `VulnAnalysis` but for its two times.
pub record VulnAnalysis : Type 0 where
  pub id : Bytes
  pub vulnerability_id : Bytes
  pub pkg_name : Bytes
  pub host_id : Bytes
  pub provider : Bytes
  pub model : Bytes
  pub risk_level : Bytes
  pub likely_false_positive : Bool
  pub exploitability : Bytes
  pub recommended_action : Bytes
  pub reasoning : Bytes
  pub confidence : ℕ
  pub auto_applied : Bool

-- A call of `audit` or `auditSystem`: the action and the resource.
pub record AuditEntry : Type 0 where
  pub action : Bytes
  pub resource_id : Bytes

-- What the code changes: the two tables, and the audit log with its last entry first.
pub record Ai : Type 0 where
  pub approvals : List AiApproval
  pub triage : Triage
  pub audits : List AuditEntry

abbrev pub audit : Bytes → Bytes → Ai → Ai
audit action resource s = record s {
  audits = record { action = action; resource_id = resource } ∷ s.audits;
}

abbrev pub request_of : AnalysisCandidate → VulnAnalysis → Request
request_of c a = record {
  typ = codes "triage.suppress";
  confidence = a.confidence;
  suppressing = true;
  severity = c.severity;
  cvss_score = c.cvss_score;
  known_exploited = c.known_exploited;
  environment = c.environment;
  criticality = c.criticality;
}

-- The texts: `fixed2` is the verb %.2f on a number of thousandths.
abbrev pub reason_text : (ℕ → Bytes) → Bytes → VulnAnalysis → Bytes
reason_text fixed2 start a =
    start ++ a.model ++ codes ", confidence " ++ fixed2 a.confidence ++ codes ")"

abbrev pub subject_of : AnalysisCandidate → Bytes
subject_of c = c.vulnerability_id ++ codes "|" ++ c.host_id ++ codes "|" ++ c.pkg_name

-- What stands outside: JSON in and out, and the number's text.
pub record Codec : Type 0 where
  pub parse : Bytes → Option TriageSuppressPayload
  pub marshal : TriageSuppressPayload → Bytes
  pub context_json : VulnAnalysis → Bytes
  pub jsonb : Bytes → Bytes
  pub fixed2 : ℕ → Bytes

-- What a call meets: the time, the new identifier, and the statements that fail.
pub record Circumstance : Type 0 where
  pub now : ℕ
  pub new_id : Bytes
  pub upsert_fails : Bool
  pub rebuild_fails : Bool
  pub create_fails : Bool
  pub claim_fails : Bool
  pub revert_fails : Bool
  pub reject_fails : Bool

abbrev pub payload_of : Codec → AnalysisCandidate → VulnAnalysis → Bytes → TriageSuppressPayload
payload_of codec c a status = record {
  vulnerability_id = c.vulnerability_id;
  host_id = c.host_id;
  pkg_name = c.pkg_name;
  triage_status = status;
  reason = reason_text codec.fixed2 (codes "AI auto-triage (") a;
  comment = a.reasoning;
}

-- The state, and whether the action was applied at once.
abbrev pub after_apply : AnalysisCandidate → Ai → Result ActionError Triage → Bool × Ai
after_apply c s (err e) = (false, s)
after_apply c s (ok triage) =
    (true, audit (codes "ai_action.apply") c.vulnerability_id (record s { triage = triage }))

abbrev pub after_queue : AnalysisCandidate → Ai → Option (List AiApproval) → Bool × Ai
after_queue c s none = (false, s)
after_queue c s (some rows) =
    (false, audit (codes "ai_action.queued") c.vulnerability_id (record s { approvals = rows }))

abbrev pub unless_fails {ℓ} : {A : Type ℓ} → Bool → Option A → Option A
unless_fails fails o = if fails then none else o

abbrev pub approval_of : Codec → AnalysisCandidate → VulnAnalysis → Decision → Bytes → AiApproval
approval_of codec c a d proposed = record {
  id = [];
  action_type = codes "triage.suppress";
  subject = subject_of c;
  proposed = proposed;
  context = codec.context_json a;
  confidence = a.confidence;
  rule = d.rule;
  reason = d.reason;
  status = pending;
  created_at = 0;
  decided_at = none;
  decided_by = [];
}

-- The switch on the outcome.
unfoldable pub carry_out :
    Codec
    → Circumstance
    → AnalysisCandidate
    → VulnAnalysis
    → Decision
    → Bytes
    → Outcome
    → Ai
    → Bool × Ai
unfolding execute_ai_action create_ai_approval
carry_out codec w c a d proposed apply s = after_apply c s (
    execute_ai_action codec.parse w.upsert_fails w.rebuild_fails (codes "triage.suppress") proposed
      (codes "ai-analyzer") s.triage)
carry_out codec w c a d proposed queue s = after_queue c s (
    unless_fails w.create_fails (
      create_ai_approval codec.jsonb w.new_id w.now (approval_of codec c a d proposed) s.approvals))
carry_out codec w c a d proposed none s = (false, s)

unfoldable pub govern_ai_analysis_action :
    Config → Codec → Circumstance → AnalysisCandidate → VulnAnalysis → Ai → Bool × Ai
unfolding triage_status_for_action decide carry_out
govern_ai_analysis_action cfg codec w c a s =
    let status = triage_status_for_action a.recommended_action in
    let d = decide cfg (request_of c a) in
    if is_empty status
    then (false, s)
    else carry_out codec w c a d (codec.marshal (payload_of codec c a status)) d.outcome s
