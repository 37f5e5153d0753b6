-- ===== src/Approvals/Tests.antt =====
-- The theorems on the approvals at a concrete table, and runs of the handlers.
use bongsu.Prelude.{
  ◌≤◌, ◌≡◌, ◌≢◌, ◌⊎◌, refl, Bool, true, false, ◌&&◌, not, ◌==◌, Option, none, some, List, [], ◌∷◌,
  any_of, if◌then◌else◌,
}
use bongsu.Text.{Bytes, codes, equal, trim_space}
use bongsu.Aipolicy.{auto, known, Config}
use bongsu.Approvals.{
  pending, approved, AiApproval, has_id, find, count, is_open_at, pending_differ,
}
use bongsu.Approvals.Actions.{
  AnalysisCandidate, VulnAnalysis, Ai, Codec, Circumstance, govern_ai_analysis_action,
}
use bongsu.Approvals.Execute.{TriageSuppressPayload, no_triage}
use bongsu.Approvals.Handlers.{handle_decide_ai_approval}
use bongsu.Approvals.Table.{ids_differ, IsTable}
use bongsu.Approvals.Execution.{start, Event, queued, claimed, carried_out, run}
use bongsu.Approvals.Suppressing.{IsSettled, run_settles}
use bongsu.Approvals.Once.{is_it, executed_once}
use bongsu.Approvals.Decided.{
  code, IsExecuted, approve-IsExecuted, reject-unmatched, govern-serious,
}

abbrev payload : TriageSuppressPayload
payload = record {
  vulnerability_id = codes "CVE-1";
  host_id = codes "h";
  pkg_name = codes "p";
  triage_status = codes "accepted_risk";
  reason = [];
  comment = [];
}

-- JSON with one text, "P", for one payload.
unfoldable parse_p : Bytes → Option TriageSuppressPayload
unfolding equal
parse_p text = if equal text (codes "P") then some payload else none

abbrev codec : Codec
codec = record {
  parse = parse_p;
  marshal = λ p. codes "P";
  context_json = λ a. codes "{}";
  jsonb = λ text. text;
  fixed2 = λ n. [];
}

abbrev calm : Circumstance
calm = record {
  now = 7;
  new_id = codes "id1";
  upsert_fails = false;
  rebuild_fails = false;
  create_fails = false;
  claim_fails = false;
  revert_fails = false;
  reject_fails = false;
}

abbrev stormy : Circumstance
stormy = record calm { upsert_fails = true }

abbrev waiting : AiApproval
waiting = record {
  id = codes "id1";
  action_type = codes "triage.suppress";
  subject = codes "CVE-1|h|p";
  proposed = codes "P";
  context = codes "{}";
  confidence = 900;
  rule = [];
  reason = [];
  status = pending;
  created_at = 7;
  decided_at = none;
  decided_by = [];
}

-- A second approver comes while the first is at work, and the execution of the first fails once.
abbrev story : List Event
story =
    queued calm waiting
    ∷ claimed calm (codes "id1") (codes "ann")
    ∷ claimed calm (codes "id1") (codes "bob")
    ∷ carried_out stormy (codes "id1")
    ∷ claimed calm (codes "id1") (codes "bob")
    ∷ carried_out calm (codes "id1")
    ∷ carried_out calm (codes "id1")
    ∷ []

story_test : count (is_it (codes "id1")) (run parse_p (λ text. text) story start).executed ≡ 1
unfolding run parse_p
story_test = refl

executed_once_example :
    count (is_it (codes "id1")) (run parse_p (λ text. text) story start).executed ≤ 1
executed_once_example = executed_once parse_p (λ text. text) story (codes "id1")

run_settles_example : IsSettled true (run parse_p (λ text. text) story start).triage
run_settles_example = run_settles parse_p (λ text. text) story

abbrev one_waiting : Ai
one_waiting = record { approvals = waiting ∷ []; triage = no_triage; audits = [] }

one_waiting-IsTable : IsTable one_waiting.approvals
unfolding ids_differ pending_differ
one_waiting-IsTable = record { ids = refl; clean = refl; actions = refl }

approve-IsExecuted_example :
    let r =
      handle_decide_ai_approval codec calm true (codes " id1") (codes "ann") true one_waiting in
    ((code r ≡ 200)
      × IsExecuted codec calm (trim_space (codes " id1")) (codes "ann") one_waiting r.1)
    ⊎ ((code r ≢ 200) × (r.1 ≡ one_waiting))
approve-IsExecuted_example =
    approve-IsExecuted codec calm true (codes " id1") (codes "ann") one_waiting one_waiting-IsTable
      refl

approved_test :
    code (handle_decide_ai_approval codec calm true (codes " id1") (codes "ann") true one_waiting)
    ≡ 200
unfolding handle_decide_ai_approval parse_p
approved_test = refl

-- The open approval id1 is not rejected, as no approval has the id ann.
reject-unmatched_example :
    let r =
      handle_decide_ai_approval codec calm true (codes "id1") (codes "ann") false one_waiting in
    (find (has_id (trim_space (codes "id1"))) r.1.approvals
      ≡ find (has_id (trim_space (codes "id1"))) one_waiting.approvals)
    × ((code r == 200) ≡ (
        true && not calm.reject_fails && any_of (is_open_at (codes "ann")) one_waiting.approvals))
unfolding equal trim_space
reject-unmatched_example =
    reject-unmatched codec calm true (codes "id1") (codes "ann") one_waiting refl

rejected_test :
    code (handle_decide_ai_approval codec calm true (codes "id1") (codes "ann") false one_waiting)
    ≡ 409
unfolding handle_decide_ai_approval
rejected_test = refl

-- While id1 is claimed, the same action is queued again; the rollback of the claim then breaks the
-- index, and id1 stays approved though its action was never executed.
abbrev stuck_story : List Event
stuck_story =
    queued calm waiting
    ∷ claimed calm (codes "id1") (codes "ann")
    ∷ queued (record calm { new_id = codes "id2" }) waiting
    ∷ carried_out stormy (codes "id1")
    ∷ []

abbrev is_stuck : AiApproval → Bool
is_stuck row = elim row.status [ approved ↦ equal row.id (codes "id1") | _ ↦ false ]

stuck_test :
    let s = run parse_p (λ text. text) stuck_story start in
    (any_of is_stuck s.approvals ≡ true) × (s.executed ≡ [])
unfolding run parse_p equal
stuck_test = (refl, refl)

abbrev exploited : AnalysisCandidate
exploited = record {
  vulnerability_id = codes "CVE-1";
  pkg_name = codes "p";
  host_id = codes "h";
  hostname = codes "host";
  severity = codes "low";
  epss_score = 12;
  installed_version = codes "1";
  fixed_version = codes "2";
  ecosystem = codes "npm";
  title = codes "Title";
  description = [];
  host_network_exposed = false;
  stored_input_hash = [];
  cvss_score = 20;
  known_exploited = true;
  environment = [];
  criticality = [];
}

abbrev analysis : VulnAnalysis
analysis = record {
  id = [];
  vulnerability_id = codes "CVE-1";
  pkg_name = codes "p";
  host_id = codes "h";
  provider = codes "local";
  model = codes "m";
  likely_false_positive = true;
  auto_applied = false;
  risk_level = [];
  exploitability = [];
  recommended_action = codes "accept_risk";
  reasoning = [];
  confidence = 990;
}

abbrev in_auto : Config
in_auto = record { mode = known auto; min_confidence = 0; protect_production = false }

govern-serious_example :
    govern_ai_analysis_action in_auto codec calm exploited analysis one_waiting
    ≡ (false, one_waiting)
govern-serious_example = govern-serious in_auto codec calm exploited analysis one_waiting refl

-- The same finding, not exploited, is silenced at once.
governed_test :
    (govern_ai_analysis_action in_auto codec calm
      (record exploited { known_exploited = false })
      analysis
      one_waiting).0
    ≡ true
unfolding govern_ai_analysis_action parse_p
governed_test = refl
