-- ===== src/Approvals/Decided.antt =====
-- What a person's decision on an approval does, and what the policy lets pass without one.
use bongsu.Prelude.{
  ℕ, ◌≡◌, ◌≢◌, refl, ◌∙◌, Bool, true, false, not, ◌&&◌, ◌||◌, none, some, List, [], ◌∷◌, arith,
  any_of, Bool-cases, Option-cases, inl, inr, ◌⊎◌, ◌==◌,
}
use bongsu.Prelude.Result.{ok, Result-cases}
use bongsu.Text.{Bytes, equal, equal_iff, equal_sym, trim_space, is_empty}
use bongsu.Aipolicy.{is_critical, Outcome, apply, queue, none, Config, decide}
use bongsu.Aipolicy.Laws.{is_apply, is_queue, outcome-applies, decide-queues}
use bongsu.Approvals.{
  approved, rejected, AiApproval, has_id, find, is_open_at, update_where, decided,
  claim_ai_approval_for_approval, revert_ai_approval, reject_ai_approval,
}
use bongsu.Approvals.Actions.{
  AnalysisCandidate, VulnAnalysis, Ai, request_of, Codec, Circumstance, triage_status_for_action,
  carry_out, payload_of, govern_ai_analysis_action,
}
use bongsu.Approvals.Execute.{execute_ai_action}
use bongsu.Approvals.Handlers.{
  Answer, reverted, after_execution, after_claim, approve, reject, handle_decide_ai_approval,
}
use bongsu.Approvals.Table.{IsTable}
use bongsu.Approvals.Undo.{update_where_none, find-any_of, update_where-undone}

-- What a decision answers, and what it leaves.
abbrev pub code : Answer × Ai → ℕ
code r = r.0.0

-- The claim is rolled back as a whole.
reverted-undone :
    (w : Circumstance) (id actor : Bytes) (rows : List AiApproval) (row : AiApproval)
    → IsTable rows
    → w.revert_fails ≡ false
    → find (is_open_at id) rows ≡ some row
    → reverted w id (update_where (is_open_at id) (decided approved w.now actor) rows) ≡ rows
unfolding revert_ai_approval
reverted-undone w id actor rows row t works h =
    let undone = update_where-undone id actor w.now rows row t.ids t.clean h in
    rw works rw undone rw t.actions refl

-- An open approval whose action was executed: the triage is written, and the row approved.
pub record IsExecuted (codec : Codec) (w : Circumstance) (id actor : Bytes) (s next : Ai)
    : Type 0 where
  pub row : AiApproval
  pub was_open : find (is_open_at id) s.approvals ≡ some row
  pub action :
      execute_ai_action codec.parse w.upsert_fails w.rebuild_fails row.action_type row.proposed
        actor s.triage
      ≡ ok next.triage
  pub approvals :
      next.approvals ≡ update_where (is_open_at id) (decided approved w.now actor) s.approvals

approve-outcome :
    (codec : Codec) (w : Circumstance) (id actor : Bytes) (s : Ai)
    → IsTable s.approvals
    → w.revert_fails ≡ false
    → ((code (approve codec w id actor s) ≡ 200)
        × IsExecuted codec w id actor s (approve codec w id actor s).1)
      ⊎ ((code (approve codec w id actor s) ≢ 200) × ((approve codec w id actor s).1 ≡ s))
unfolding approve claim_ai_approval_for_approval after_claim after_execution
approve-outcome codec w id actor s t works = elim (Bool-cases w.claim_fails) [
  | inl fails ↦ rw fails (inr ((λ p. absurd (omega (arith, p))), refl))
  | inr claims ↦ elim (Option-cases (find (is_open_at id) s.approvals)) [
    | inl closed ↦
        let same =
          update_where_none (is_open_at id) (decided approved w.now actor) s.approvals
            (find-any_of (is_open_at id) s.approvals closed) in
        rw (claims, closed, same) (inr ((λ p. absurd (omega (arith, p))), refl))
    | inr (row, was_open) ↦
        elim (Result-cases (
          execute_ai_action codec.parse w.upsert_fails w.rebuild_fails row.action_type row.proposed
            actor s.triage)) [
              | inl (triage, done) ↦
                  rw (claims, was_open) rw done
                    (inl (
                      refl,
                      record { row = row; was_open = was_open; action = done; approvals = refl },
                    ))
              | inr (e, failed) ↦
                  let undone = reverted-undone w id actor s.approvals row t works was_open in
                  rw (claims, was_open) rw failed rw undone
                    (inr ((λ p. absurd (omega (arith, p))), refl))
            ]
  ]
]

-- With a table that is well-formed (`IsTable`) and a rollback that the database does not fail,
-- `handleDecideAIApproval` that approves either answers 200, and the approval was open, its
-- stored action was executed, the result is the new triage, and its row is set to approved; or it
-- answers otherwise, and both tables and the audit log are as before.
pub approve-IsExecuted :
    (codec : Codec) (w : Circumstance) (is_admin : Bool) (path_id actor : Bytes) (s : Ai)
    → IsTable s.approvals
    → w.revert_fails ≡ false
    → let r = handle_decide_ai_approval codec w is_admin path_id actor true s in
      ((code r ≡ 200) × IsExecuted codec w (trim_space path_id) actor s r.1)
      ⊎ ((code r ≢ 200) × (r.1 ≡ s))
unfolding handle_decide_ai_approval
approve-IsExecuted codec w true path_id actor s t works =
    approve-outcome codec w (trim_space path_id) actor s t works
approve-IsExecuted codec w false path_id actor s t works =
    inr ((λ p. absurd (omega (arith, p))), refl)

find-rejected :
    (id actor : Bytes) (now : ℕ) (rows : List AiApproval)
    → equal id actor ≡ false
    → find (has_id id) (update_where (is_open_at actor) (decided rejected now id) rows)
      ≡ find (has_id id) rows
unfolding find update_where is_open_at has_id
find-rejected id actor now [] h = refl
find-rejected id actor now (row ∷ rows) h =
    let ih = find-rejected id actor now rows h in
    elim (Bool-cases (equal row.id actor)) [
      | inl at ↦
          let named = (equal_iff row.id actor).0 at in
          let apart : equal row.id id ≡ false = rw named (equal_sym actor id ∙ h) in
          ground (arith, ih, apart)
      | inr away ↦ rw away ground (arith, ih)
    ]

-- When the name of the caller differs from the id in the path, `handleDecideAIApproval` that
-- rejects leaves the approval with this id as it is, and it answers 200 exactly when the caller
-- is an administrator, the statement does not fail, and an open approval has the name of the
-- caller as its id.
pub reject-unmatched :
    (codec : Codec) (w : Circumstance) (is_admin : Bool) (path_id actor : Bytes) (s : Ai)
    → equal (trim_space path_id) actor ≡ false
    → let r = handle_decide_ai_approval codec w is_admin path_id actor false s in
      (find (has_id (trim_space path_id)) r.1.approvals
        ≡ find (has_id (trim_space path_id)) s.approvals)
      × ((code r == 200)
          ≡ (is_admin && not w.reject_fails && any_of (is_open_at actor) s.approvals))
unfolding handle_decide_ai_approval reject reject_ai_approval
reject-unmatched codec w false path_id actor s h = (refl, refl)
reject-unmatched codec w true path_id actor s h = elim (Bool-cases w.reject_fails) [
  | inl fails ↦ rw fails (refl, refl)
  | inr works ↦
      let same = find-rejected (trim_space path_id) actor w.now s.approvals h in
      elim (Bool-cases (any_of (is_open_at actor) s.approvals)) [
        | inl hit ↦ rw (works, hit) (same, refl)
        | inr miss ↦ rw (works, miss) (same, refl)
      ]
]

-- Known to be exploited, or critical.
abbrev pub is_serious_finding : AnalysisCandidate → Bool
is_serious_finding c = c.known_exploited || is_critical c.severity c.cvss_score

carry_out_nothing :
    (codec : Codec) (w : Circumstance) (cfg : Config) (c : AnalysisCandidate) (a : VulnAnalysis)
    (proposed : Bytes) (s : Ai) (o : Outcome)
    → is_apply o ≡ false
    → is_queue o ≡ false
    → carry_out codec w c a (decide cfg (request_of c a)) proposed o s ≡ (false, s)
unfolding carry_out
carry_out_nothing codec w cfg c a proposed s apply h k = absurd (ground (arith, h))
carry_out_nothing codec w cfg c a proposed s queue h k = absurd (ground (arith, k))
carry_out_nothing codec w cfg c a proposed s none h k = refl

-- For a finding that is known to be exploited or critical, `governAIAnalysisAction` applies
-- nothing, whatever the configuration and the analysis, and changes neither table nor the audit
-- log.
pub govern-serious :
    (cfg : Config) (codec : Codec) (w : Circumstance) (c : AnalysisCandidate) (a : VulnAnalysis)
    (s : Ai)
    → is_serious_finding c ≡ true
    → govern_ai_analysis_action cfg codec w c a s ≡ (false, s)
unfolding govern_ai_analysis_action
govern-serious cfg codec w c a s h =
    let req = request_of c a in
    let proposed =
      codec.marshal (payload_of codec c a (triage_status_for_action a.recommended_action)) in
    let nothing =
      carry_out_nothing codec w cfg c a proposed s (decide cfg req).outcome
        (outcome-applies cfg req ∙ rw h refl) (decide-queues cfg req ∙ rw h refl) in
    elim (Bool-cases (is_empty (triage_status_for_action a.recommended_action))) [
      | inl useless ↦ rw useless refl
      | inr usable ↦ rw usable nothing
    ]
