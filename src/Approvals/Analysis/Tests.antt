-- ===== src/Approvals/Analysis/Tests.antt =====
-- The theorems on the analysis at a concrete finding, and runs of it.
use bongsu.Prelude.{
  ℕ, zero, suc, ◌≡◌, refl, Bool, true, false, Option, some, [], ◌∷◌, ◌++◌, ◌⊎◌, any_of,
  if◌then◌else◌,
}
use bongsu.Prelude.Int.{pos}
use bongsu.Prelude.Result.{ok, err}
use bongsu.Text.{Bytes, codes, equal}
use bongsu.Text.Utf8.{is_utf8}
use bongsu.Aipolicy.{auto, known, Config}
use bongsu.Approvals.Actions.{AnalysisCandidate, VulnAnalysis, Codec, Circumstance}
use bongsu.Approvals.Execute.{TriageSuppressPayload, VulnerabilityTriage, no_triage}
use bongsu.Approvals.Json.{extract_json}
use bongsu.Approvals.Json.Printed.{
  done, letter, Content, end, plain, quoted, print_object, extract_json-print_object,
}
use bongsu.Approvals.Analysis.{StoredAnalysis, AnalysisError, Analyst}
use bongsu.Approvals.Analysis.Prompt.{AnalysisOutput, input_key}
use bongsu.Approvals.Analysis.Assessments.{are_utf8, IsReadAs}
use bongsu.Approvals.Analysis.Batch.{
  Turn, Assessed, analyze_candidate, is_unchanged, run_analysis_batch,
}
use bongsu.Approvals.Analysis.Explained.{IsExplained, run_analysis_batch-IsExplained}
use bongsu.Approvals.Analysis.Recorded.{IsRecorded, analyze_candidate-IsWhole}

-- A payload as a text: each byte by the next one, and 0 after each field.
abbrev put_field : Bytes → Bytes → Bytes
put_field [] rest = 0 ∷ rest
put_field (c ∷ s) rest = suc c ∷ put_field s rest

abbrev get_field : Bytes → Bytes × Bytes
get_field [] = ([], [])
get_field (zero ∷ s) = ([], s)
get_field (suc c ∷ s) = let (field, rest) = get_field s in (c ∷ field, rest)

get_field-put_field : (s rest : Bytes) → get_field (put_field s rest) ≡ (s, rest)
get_field-put_field [] rest = refl
get_field-put_field (c ∷ s) rest =
    λ i. let (field, more) = get_field-put_field s rest i in (c ∷ field, more)

abbrev write_payload : TriageSuppressPayload → Bytes
write_payload p = put_field p.vulnerability_id (
    put_field p.host_id (
      put_field p.pkg_name
        (put_field p.triage_status (put_field p.reason (put_field p.comment [])))))

unfoldable read_payload : Bytes → Option TriageSuppressPayload
read_payload s0 =
    let (v, s1) = get_field s0 in
    let (h, s2) = get_field s1 in
    let (n, s3) = get_field s2 in
    let (t, s4) = get_field s3 in
    let (r, s5) = get_field s4 in
    let (c, s6) = get_field s5 in
    some (record {
      vulnerability_id = v;
      host_id = h;
      pkg_name = n;
      triage_status = t;
      reason = r;
      comment = c;
    })

read_payload-write_payload : (p : TriageSuppressPayload) → read_payload (write_payload p) ≡ some p
unfolding read_payload
read_payload-write_payload p =
    rw
      (
        get_field-put_field p.vulnerability_id (
            put_field p.host_id (
              put_field p.pkg_name
                (put_field p.triage_status (put_field p.reason (put_field p.comment []))))),
        get_field-put_field p.host_id (
            put_field p.pkg_name
              (put_field p.triage_status (put_field p.reason (put_field p.comment [])))),
        get_field-put_field p.pkg_name
            (put_field p.triage_status (put_field p.reason (put_field p.comment []))),
        get_field-put_field p.triage_status (put_field p.reason (put_field p.comment [])),
        get_field-put_field p.reason (put_field p.comment []),
        get_field-put_field p.comment [],
      )
      refl

read_payload-IsReadAs :
    (p : TriageSuppressPayload)
    → are_utf8 p.vulnerability_id p.host_id p.pkg_name ≡ true
    → IsReadAs p (read_payload (write_payload p))
read_payload-IsReadAs p u = rw (read_payload-write_payload p) (refl, refl, refl)

-- The text {"a":"}"}.
abbrev braced : Content
braced = quoted (letter b'a' refl done) (plain b':' refl (quoted (letter b'}' refl done) end))

extract_json-print_object_example :
    extract_json (codes "Sure: " ++ (print_object braced ++ codes " }")) ≡ ok (print_object braced)
extract_json-print_object_example =
    extract_json-print_object (codes "Sure: ") (codes " }") braced refl

abbrev codec : Codec
codec = record {
  parse = read_payload;
  marshal = write_payload;
  context_json = λ a. codes "{}";
  jsonb = λ text. text;
  fixed2 = λ n. [];
}

abbrev accepting : AnalysisOutput
accepting = record {
  risk_level = codes " Low";
  likely_false_positive = false;
  exploitability = codes "unlikely";
  recommended_action = codes "ACCEPT_RISK";
  reasoning = codes "not reachable";
  confidence = pos 2000;
}

-- The model answers {} for a finding whose risk it accepts, and any other object for a patch.
unfoldable unmarshal_answer : Bytes → Option AnalysisOutput
unfolding equal
unmarshal_answer raw = some (
    if equal raw (codes "{}")
    then accepting
    else record accepting { recommended_action = codes "patch" })

abbrev analyst : Analyst
analyst = record {
  is_enabled = true;
  provider = codes "local";
  model = codes "m";
  verbs = record { fixed1 = λ n. []; fixed4 = λ n. [] };
  sha = λ text. text;
  unmarshal = unmarshal_answer;
}

abbrev in_auto : Config
in_auto = record { mode = known auto; min_confidence = 0; protect_production = false }

abbrev finding : AnalysisCandidate
finding = record {
  vulnerability_id = codes "CVE-1";
  pkg_name = codes "p";
  host_id = codes "h";
  hostname = codes "host";
  severity = codes "low";
  cvss_score = 20;
  epss_score = 12;
  known_exploited = false;
  installed_version = codes "1";
  fixed_version = codes "2";
  ecosystem = codes "npm";
  environment = [];
  criticality = [];
  title = codes "a|b";
  description = codes "c";
  host_network_exposed = false;
  stored_input_hash = [];
}

abbrev calm : Circumstance
calm = record {
  now = 7;
  new_id = codes "id1";
  upsert_fails = false;
  rebuild_fails = false;
  create_fails = false;
  claim_fails = false;
  revert_fails = false;
  reject_fails = false;
}

-- The first answer accepts the risk, the later ones ask for a patch.
abbrev answers : ℕ → Turn
answers k = record {
  circumstance = calm;
  complete = λ prompt. some (elim k [ zero ↦ codes "{}" | suc n ↦ codes "{[]}" ]);
  is_cancelled = false;
  store_fails = false;
  restore_fails = false;
}

abbrev nothing_yet : Assessed
nothing_yet = record {
  ai = record { approvals = []; triage = no_triage; audits = [] };
  analyses = [];
}

-- The same finding, after it has become known to be exploited.
abbrev exploited : AnalysisCandidate
exploited = record finding { known_exploited = true }

run_analysis_batch-IsExplained_example :
    IsExplained
      (run_analysis_batch analyst in_auto codec answers
        (some (finding ∷ exploited ∷ []))
        nothing_yet).1
unfolding is_utf8
run_analysis_batch-IsExplained_example =
    run_analysis_batch-IsExplained analyst in_auto codec read_payload-IsReadAs answers
      (some (finding ∷ exploited ∷ [])) nothing_yet refl refl

analyze_candidate-IsWhole_example :
    let r = analyze_candidate analyst in_auto codec (answers 0) finding nothing_yet in
    ((e : AnalysisError) × (r ≡ (err e, nothing_yet)))
    ⊎ ((a : VulnAnalysis) × (r.0 ≡ ok a)
        × IsRecorded analyst in_auto codec (answers 0) finding nothing_yet a r.1)
analyze_candidate-IsWhole_example =
    analyze_candidate-IsWhole analyst in_auto codec (answers 0) finding nothing_yet

abbrev is_accepted : VulnerabilityTriage → Bool
is_accepted t = equal t.status (codes "accepted_risk")

abbrev recommends_patch : StoredAnalysis → Bool
recommends_patch row = equal row.analysis.recommended_action (codes "patch")

-- The finding is silenced, then it becomes known to be exploited: the new assessment asks for a
-- patch and replaces the old one, but the finding stays silenced.
stale_test :
    let (n, s) =
      run_analysis_batch analyst in_auto codec answers
        (some (finding ∷ exploited ∷ []))
        nothing_yet in
    (n ≡ some 2)
    × (any_of is_accepted s.ai.triage.rows ≡ true)
    × (any_of recommends_patch s.analyses ≡ true)
unfolding run_analysis_batch unmarshal_answer read_payload equal
stale_test = (refl, refl, refl)

-- Another title and description with the same text for the hash: the finding is not assessed again.
abbrev moved_bar : AnalysisCandidate
moved_bar = record finding {
  title = codes "a";
  description = codes "b|c";
  stored_input_hash = input_key analyst.verbs finding;
}

moved_bar_test : is_unchanged analyst in_auto codec moved_bar ≡ true
unfolding is_unchanged input_key
moved_bar_test = refl
