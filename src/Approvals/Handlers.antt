-- ===== src/Approvals/Handlers.antt =====
-- internal/server/api/ai_actions.go and vuln_analysis.go: the handlers that decide on an action of
-- the AI. Each gives the code and the message of its answer, and what it leaves. Whether the
-- caller is an administrator, and the caller's name, come from the authentication.
use bongsu.Prelude.{ℕ, Bool, Option, none, some, List, if◌then◌else◌}
use bongsu.Prelude.Result.{Result, ok, err}
use bongsu.Text.{Bytes, codes, is_empty, trim_space}
use bongsu.Approvals.{
  AiApproval, claim_ai_approval_for_approval, revert_ai_approval, reject_ai_approval,
}
use bongsu.Approvals.Actions.{
  VulnAnalysis, triage_status_for_action, Ai, audit, reason_text, Codec, Circumstance, unless_fails,
}
use bongsu.Approvals.Execute.{
  or_value, TriageSuppressPayload, Triage, ActionError, execute_ai_action,
}

abbrev pub Answer : Type 0
Answer = ℕ × Bytes

-- `_ = s.db.RevertAIApproval(...)`: the rows stay when it fails.
abbrev pub reverted : Circumstance → Bytes → List AiApproval → List AiApproval
reverted w id rows = or_value rows (unless_fails w.revert_fails (revert_ai_approval id rows))

unfoldable pub after_execution :
    Circumstance → Bytes → List AiApproval → Ai → Result ActionError Triage → Answer × Ai
unfolding revert_ai_approval
after_execution w id rows s (err e) =
    ((500, codes "failed to execute approved action"), record s { approvals = reverted w id rows })
after_execution w id rows s (ok triage) = (
  (200, codes "approved"),
  audit (codes "ai_action.approve") id (record s { approvals = rows; triage = triage }),
)

unfoldable pub after_claim :
    Codec → Circumstance → Bytes → Bytes → List AiApproval → Ai → Option AiApproval → Answer × Ai
unfolding after_execution execute_ai_action
after_claim codec w id actor rows s none =
    ((409, codes "approval not pending"), record s { approvals = rows })
after_claim codec w id actor rows s (some row) = after_execution w id rows s (
    execute_ai_action codec.parse w.upsert_fails w.rebuild_fails row.action_type row.proposed actor
      s.triage)

unfoldable pub approve : Codec → Circumstance → Bytes → Bytes → Ai → Answer × Ai
unfolding claim_ai_approval_for_approval after_claim
approve codec w id actor s =
    let claimed = claim_ai_approval_for_approval w.now id actor s.approvals in
    if w.claim_fails
    then ((500, codes "db error"), s)
    else after_claim codec w id actor claimed.0 s claimed.1

unfoldable pub reject : Circumstance → Bytes → Bytes → Ai → Answer × Ai
unfolding reject_ai_approval
reject w id actor s =
    let result = reject_ai_approval w.now id actor s.approvals in
    let next = record s { approvals = result.0 } in
    if w.reject_fails
    then ((500, codes "db error"), s)
    else if result.1
    then ((200, codes "rejected"), audit (codes "ai_action.reject") id next)
    else ((409, codes "approval not pending"), next)

unfoldable pub handle_decide_ai_approval :
    Codec → Circumstance → Bool → Bytes → Bytes → Bool → Ai → Answer × Ai
unfolding approve reject trim_space
handle_decide_ai_approval codec w is_admin path_id actor approves s =
    let id = trim_space path_id in
    if is_admin
    then (if approves then approve codec w id actor s else reject w id actor s)
    else ((401, codes "unauthorized"), s)

abbrev pub stored_payload : Codec → VulnAnalysis → Bytes → TriageSuppressPayload
stored_payload codec a status = record {
  vulnerability_id = a.vulnerability_id;
  host_id = a.host_id;
  pkg_name = a.pkg_name;
  triage_status = status;
  reason = reason_text codec.fixed2 (codes "Applied AI suggestion (") a;
  comment = a.reasoning;
}

abbrev pub after_apply_by : VulnAnalysis → Ai → Result ActionError Triage → Answer × Ai
after_apply_by a s (err e) = ((500, codes "db error"), s)
after_apply_by a s (ok triage) = (
  (200, codes "applied"),
  audit (codes "vuln_analysis.apply") a.vulnerability_id (record s { triage = triage }),
)

unfoldable pub apply_analysis :
    Codec → Circumstance → Bytes → Ai → Option VulnAnalysis → Answer × Ai
unfolding triage_status_for_action execute_ai_action
apply_analysis codec w actor s none = ((404, codes "analysis not found"), s)
apply_analysis codec w actor s (some a) =
    let status = triage_status_for_action a.recommended_action in
    if is_empty status
    then ((400, codes "recommended action is not directly applicable as a triage decision"), s)
    else after_apply_by a s (
        execute_ai_action codec.parse w.upsert_fails w.rebuild_fails (codes "triage.suppress")
          (codec.marshal (stored_payload codec a status)) actor s.triage)

-- `stored` is the answer of `GetVulnAnalysisByID`.
unfoldable pub handle_apply_vuln_analysis :
    Codec → Circumstance → Bool → Bytes → Option VulnAnalysis → Ai → Answer × Ai
unfolding apply_analysis
handle_apply_vuln_analysis codec w is_admin actor stored s =
    if is_admin then apply_analysis codec w actor s stored else ((401, codes "unauthorized"), s)
