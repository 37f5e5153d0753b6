-- ===== src/Approvals/Analysis.antt =====
-- internal/server/api/vuln_analysis.go: a language model assesses a finding, the assessment is stored, and the
-- action that it recommends goes to the policy engine. The table vulnerability_analysis
-- (internal/server/db/vuln_analysis.go) is a list of its rows.
pub mod Prompt
pub mod Batch
pub mod Assessments
pub mod Governed
pub mod Explained
pub mod Recorded
mod Tests
use bongsu.Prelude.{
  ℕ, ◌≡◌, Bool, true, false, not, ◌&&◌, Option, none, some, List, [], ◌∷◌, ◌++◌, ltb, if◌then◌else◌,
  take, length,
}
use bongsu.Prelude.Int.{ℤ, pos, negsuc}
use bongsu.Prelude.Result.{Result, ok, err, map_err, ◌>>=◌}
use bongsu.Prelude.Sort.{filter}
use bongsu.Text.{Bytes, codes, equal, is_empty, join, one_of, to_lower, trim_space}
use bongsu.Approvals.Actions.{AnalysisCandidate, VulnAnalysis}
use bongsu.Approvals.Json.{JsonError, extract_json}
use bongsu.Approvals.Analysis.Prompt.{
  AnalysisOutput, valid_risk, valid_exploit, valid_action, one_or_default, clamped,
  normalize_analysis, Verbs, bool_text, title_line, fixed_text, build_analysis_user_prompt,
  input_key, analysis_input_hash,
}

-- A row of vulnerability_analysis.
pub record StoredAnalysis : Type 0 where
  pub analysis : VulnAnalysis
  pub input_hash : Bytes

-- The unique key of the table.
abbrev pub is_same_assessment : VulnAnalysis → StoredAnalysis → Bool
is_same_assessment a row =
    equal row.analysis.vulnerability_id a.vulnerability_id
    && equal row.analysis.pkg_name a.pkg_name
    && equal row.analysis.host_id a.host_id

-- `UpsertVulnAnalysis`: the row of the finding is replaced; `none` is a failure of the statement.
unfoldable pub upsert_vuln_analysis :
    Bool → VulnAnalysis → Bytes → List StoredAnalysis → Option (List StoredAnalysis)
unfolding filter equal
upsert_vuln_analysis fails a hash rows =
    if fails
    then none
    else some (
        record { analysis = a; input_hash = hash }
        ∷ filter (λ (row : StoredAnalysis). not (is_same_assessment a row)) rows)

pub data AnalysisError : Type 0 where
  not_enabled no_answer bad_output not_stored : AnalysisError
  no_json : JsonError → AnalysisError

-- The model, and the JSON of its answers.
pub record Analyst : Type 0 where
  pub is_enabled : Bool
  pub provider : Bytes
  pub model : Bytes
  pub verbs : Verbs
  pub sha : Bytes → Bytes
  pub unmarshal : Bytes → Option AnalysisOutput

abbrev pub natural : ℤ → ℕ
natural (pos n) = n
natural (negsuc n) = 0

abbrev pub analysis_of : Analyst → AnalysisCandidate → AnalysisOutput → VulnAnalysis
analysis_of p c out = record {
  id = [];
  vulnerability_id = c.vulnerability_id;
  pkg_name = c.pkg_name;
  host_id = c.host_id;
  provider = p.provider;
  model = p.model;
  risk_level = out.risk_level;
  likely_false_positive = out.likely_false_positive;
  exploitability = out.exploitability;
  recommended_action = out.recommended_action;
  reasoning = out.reasoning;
  confidence = natural out.confidence;
  auto_applied = false;
}

abbrev pub or_error {ℓ} : {A : Type ℓ} → AnalysisError → Option A → Result AnalysisError A
or_error e none = err e
or_error e (some a) = ok a

-- What the model answers. `complete` gives its text for a prompt, under `analysisSystemPrompt`.
unfoldable pub output_of :
    Analyst → (Bytes → Option Bytes) → AnalysisCandidate → Result AnalysisError AnalysisOutput
unfolding build_analysis_user_prompt extract_json
output_of p complete c =
    or_error no_answer (complete (build_analysis_user_prompt p.verbs c))
    >>= (λ (text : Bytes). map_err no_json (extract_json text))
    >>= (λ (raw : Bytes). or_error bad_output (p.unmarshal raw))

-- The assessment of a finding, up to its storage.
unfoldable pub assess :
    Analyst → (Bytes → Option Bytes) → AnalysisCandidate → Result AnalysisError VulnAnalysis
unfolding output_of normalize_analysis
assess p complete c =
    if not p.is_enabled
    then err not_enabled
    else output_of p complete c >>= λ (out : AnalysisOutput).
        ok (analysis_of p c (normalize_analysis out))
