-- ===== src/Approvals/Analysis/Governed.antt =====
-- What the policy engine lets the analysis write is for a finding with an assessment.
use bongsu.Prelude.{
  ◌≡◌, refl, Bool, true, not, ◌||◌, Option, none, some, List, arith, all_of, Bool-cases, inl, inr,
}
use bongsu.Prelude.Result.{Result, ok, err, Ensures, Ensures-weaken, ◌>>=◌}
use bongsu.Text.{Bytes, codes, equal, is_empty}
use bongsu.Aipolicy.{Outcome, apply, queue, none, Config, Decision, decide}
use bongsu.Approvals.{AiApproval, create_ai_approval}
use bongsu.Approvals.Execute.{
  TriageSuppressPayload, is_suppressing, Triage, ActionError, checked, triage_of, write_triage,
  execute_ai_action,
}
use bongsu.Approvals.Actions.{
  AnalysisCandidate, VulnAnalysis, Ai, request_of, Codec, Circumstance, payload_of, approval_of,
  unless_fails, after_apply, after_queue, triage_status_for_action, carry_out,
  govern_ai_analysis_action,
}
use bongsu.Approvals.Suppressing.{write_triage-all_of}
use bongsu.Approvals.Analysis.{StoredAnalysis}
use bongsu.Approvals.Analysis.Assessments.{is_explained, is_for, are_utf8, IsReadAs, is_for-read}

module _ (cfg : Config) (codec : Codec)
    (reads : (p : TriageSuppressPayload)
      → are_utf8 p.vulnerability_id p.host_id p.pkg_name ≡ true
      → IsReadAs p (codec.parse (codec.marshal p))) where
  write-IsExplained :
      (fails breaks : Bool) (payload : TriageSuppressPayload) (rows : List StoredAnalysis)
      (s : Triage) (read : Option TriageSuppressPayload)
      → IsReadAs payload read
      → is_for payload rows ≡ true
      → all_of (is_explained rows) s.rows ≡ true
      → Ensures
          (λ (next : Triage). all_of (is_explained rows) next.rows ≡ true)
          (checked read >>= λ (p : TriageSuppressPayload).
            write_triage fails breaks (triage_of (codes "ai-analyzer") p) s)
  unfolding checked
  write-IsExplained fails breaks payload rows s none k assessed h = absurd k
  write-IsExplained fails breaks payload rows s (some q) k assessed h =
      elim (Bool-cases (is_empty q.vulnerability_id || not (is_suppressing q.triage_status))) [
        | inl bad ↦ rw bad tt
        | inr good ↦ rw good (
            Ensures-weaken (λ next (same, all). all)
              (write_triage fails breaks (triage_of (codes "ai-analyzer") q) s)
              (write_triage-all_of (is_explained rows) fails breaks
                (triage_of (codes "ai-analyzer") q) s
                (ground (arith, is_for-read payload q rows k assessed)) h))
      ]

  execute-IsExplained :
      (fails breaks : Bool) (payload : TriageSuppressPayload) (rows : List StoredAnalysis)
      (s : Triage)
      → are_utf8 payload.vulnerability_id payload.host_id payload.pkg_name ≡ true
      → is_for payload rows ≡ true
      → all_of (is_explained rows) s.rows ≡ true
      → Ensures
          (λ (next : Triage). all_of (is_explained rows) next.rows ≡ true)
          (execute_ai_action codec.parse fails breaks
            (codes "triage.suppress")
            (codec.marshal payload)
            (codes "ai-analyzer")
            s)
  unfolding execute_ai_action equal
  execute-IsExplained fails breaks payload rows s u =
      write-IsExplained fails breaks payload rows s (codec.parse (codec.marshal payload))
        (reads payload u)

  after_apply-IsExplained :
      (c : AnalysisCandidate) (rows : List StoredAnalysis) (s : Ai) (r : Result ActionError Triage)
      → all_of (is_explained rows) s.triage.rows ≡ true
      → Ensures (λ (next : Triage). all_of (is_explained rows) next.rows ≡ true) r
      → all_of (is_explained rows) (after_apply c s r).1.triage.rows ≡ true
  after_apply-IsExplained c rows s (ok triage) h k = k
  after_apply-IsExplained c rows s (err e) h k = h

  after_queue-triage :
      (c : AnalysisCandidate) (s : Ai) (r : Option (List AiApproval))
      → (after_queue c s r).1.triage ≡ s.triage
  after_queue-triage c s none = refl
  after_queue-triage c s (some rows) = refl

  carry_out-IsExplained :
      (w : Circumstance) (c : AnalysisCandidate) (a : VulnAnalysis) (d : Decision)
      (payload : TriageSuppressPayload) (o : Outcome) (rows : List StoredAnalysis) (s : Ai)
      → are_utf8 payload.vulnerability_id payload.host_id payload.pkg_name ≡ true
      → is_for payload rows ≡ true
      → all_of (is_explained rows) s.triage.rows ≡ true
      → all_of
          (is_explained rows)
          (carry_out codec w c a d (codec.marshal payload) o s).1.triage.rows
        ≡ true
  unfolding carry_out
  carry_out-IsExplained w c a d payload apply rows s u assessed h =
      after_apply-IsExplained c rows s
        (execute_ai_action codec.parse w.upsert_fails w.rebuild_fails (codes "triage.suppress")
          (codec.marshal payload) (codes "ai-analyzer") s.triage)
        h (execute-IsExplained w.upsert_fails w.rebuild_fails payload rows s.triage u assessed h)
  carry_out-IsExplained w c a d payload queue rows s u assessed h =
      rw
        (after_queue-triage c s (
          unless_fails w.create_fails (
            create_ai_approval codec.jsonb w.new_id w.now
              (approval_of codec c a d (codec.marshal payload)) s.approvals)))
        h
  carry_out-IsExplained w c a d payload none rows s u assessed h = h

  pub govern-IsExplained :
      (w : Circumstance) (c : AnalysisCandidate) (a : VulnAnalysis) (rows : List StoredAnalysis)
      (s : Ai)
      → are_utf8 c.vulnerability_id c.host_id c.pkg_name ≡ true
      → ((status : Bytes) → is_for (payload_of codec c a status) rows ≡ true)
      → all_of (is_explained rows) s.triage.rows ≡ true
      → all_of (is_explained rows) (govern_ai_analysis_action cfg codec w c a s).1.triage.rows
        ≡ true
  unfolding govern_ai_analysis_action
  govern-IsExplained w c a rows s u assessed h =
      let status = triage_status_for_action a.recommended_action in
      let d = decide cfg (request_of c a) in
      elim (Bool-cases (is_empty status)) [
        | inl useless ↦ rw useless h
        | inr usable ↦ rw usable (
            carry_out-IsExplained w c a d (payload_of codec c a status) d.outcome rows s u
              (assessed status) h)
      ]
