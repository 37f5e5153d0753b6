-- ===== src/Approvals/Execute.antt =====
-- internal/server/api/ai_actions.go: the settings of the policy, and the executor, which is the one place
-- where an action of the AI changes the triage. `parse` is encoding/json on the payload.
use bongsu.Prelude.{
  ℕ, Bool, true, not, ◌&&◌, ◌||◌, Option, none, some, List, [], ◌∷◌, if◌then◌else◌, ltb,
}
use bongsu.Prelude.Result.{Result, ok, err, ◌>>=◌}
use bongsu.Prelude.Sort.{filter}
use bongsu.Text.{Bytes, codes, equal, is_empty}
use bongsu.Aipolicy.{auto, known, none, Config, normalize_mode}

-- The variables of the environment: `env` is `os.Getenv`, `parse_float` is `strconv.ParseFloat`
-- of a number of thousandths that is not negative.
abbrev pub or_value {ℓ} : {A : Type ℓ} → A → Option A → A
or_value d none = d
or_value d (some n) = n

unfoldable pub env_float : (Bytes → Option ℕ) → Bytes → ℕ → ℕ
env_float parse_float v d = if is_empty v then d else or_value d (parse_float v)

unfoldable pub env_bool : (Bytes → Option Bool) → Bytes → Bool → Bool
env_bool parse_bool v d = if is_empty v then d else or_value d (parse_bool v)

unfoldable pub ai_policy : (Bytes → Bytes) → (Bytes → Option ℕ) → (Bytes → Option Bool) → Config
unfolding env_float env_bool normalize_mode
ai_policy env parse_float parse_bool =
    let old = env_float parse_float (env (codes "BONGSU_LLM_AUTOAPPLY_CONFIDENCE")) 0 in
    let mode = env (codes "BONGSU_AI_ACTION_MODE") in
    record {
      mode = known (if is_empty mode && ltb 0 old then auto else normalize_mode mode);
      min_confidence = env_float parse_float (env (codes "BONGSU_AI_MIN_CONFIDENCE")) old;
      protect_production = env_bool parse_bool (env (codes "BONGSU_AI_PROTECT_PRODUCTION")) true;
    }

pub record TriageSuppressPayload : Type 0 where
  pub vulnerability_id : Bytes
  pub host_id : Bytes
  pub pkg_name : Bytes
  pub triage_status : Bytes
  pub reason : Bytes
  pub comment : Bytes

-- A row of `vulnerability_triage`, by its fields that this code sets.
pub record VulnerabilityTriage : Type 0 where
  pub vulnerability_id : Bytes
  pub host_id : Bytes
  pub pkg_name : Bytes
  pub status : Bytes
  pub reason : Bytes
  pub comment : Bytes
  pub updated_by : Bytes

pub data ActionError : Type 0 where
  decode_failed invalid_payload no_vulnerability_id store_failed : ActionError
  unknown_action : Bytes → ActionError

abbrev pub is_same_finding : VulnerabilityTriage → VulnerabilityTriage → Bool
is_same_finding t row =
    equal row.vulnerability_id t.vulnerability_id
    && equal row.host_id t.host_id
    && equal row.pkg_name t.pkg_name

abbrev pub or_open : Bytes → Bytes
or_open status = if is_empty status then codes "open" else status

-- `UpsertVulnerabilityTriage`: the rows, that of the finding replaced.
unfoldable pub upsert_vulnerability_triage :
    Bool
    → VulnerabilityTriage
    → List VulnerabilityTriage
    → Result ActionError (List VulnerabilityTriage)
unfolding filter
upsert_vulnerability_triage fails t rows =
    if is_empty t.vulnerability_id
    then err no_vulnerability_id
    else if fails
    then err store_failed
    else ok (
        record t { status = or_open t.status }
        ∷ filter (λ (row : VulnerabilityTriage). not (is_same_finding t row)) rows)

abbrev pub is_suppressing : Bytes → Bool
is_suppressing status =
    equal status (codes "accepted_risk") || equal status (codes "false_positive")

abbrev pub triage_of : Bytes → TriageSuppressPayload → VulnerabilityTriage
triage_of actor p = record {
  vulnerability_id = p.vulnerability_id;
  host_id = p.host_id;
  pkg_name = p.pkg_name;
  status = p.triage_status;
  reason = p.reason;
  comment = p.comment;
  updated_by = actor;
}

unfoldable pub checked : Option TriageSuppressPayload → Result ActionError TriageSuppressPayload
unfolding equal
checked none = err decode_failed
checked (some p) =
    if is_empty p.vulnerability_id || not (is_suppressing p.triage_status)
    then err invalid_payload
    else ok p

-- The rows of the triage, and the findings for which the summaries of packages were rebuilt
-- (`RebuildPackageVulnerabilitySummariesForTriage`), the last one first.
pub record Triage : Type 0 where
  pub rows : List VulnerabilityTriage
  pub rebuilt : List VulnerabilityTriage

abbrev pub no_triage : Triage
no_triage = record { rows = []; rebuilt = [] }

-- The row is written, and the summaries follow; a failure of the latter is only logged.
abbrev pub rebuild_summaries :
    Bool → VulnerabilityTriage → List VulnerabilityTriage → List VulnerabilityTriage
rebuild_summaries fails t rebuilt = if fails then rebuilt else t ∷ rebuilt

unfoldable pub write_triage : Bool → Bool → VulnerabilityTriage → Triage → Result ActionError Triage
unfolding upsert_vulnerability_triage
write_triage upsert_fails rebuild_fails t s =
    upsert_vulnerability_triage upsert_fails t s.rows >>= λ (rows : List VulnerabilityTriage).
    ok (record { rows = rows; rebuilt = rebuild_summaries rebuild_fails t s.rebuilt })

unfoldable pub execute_ai_action :
    (Bytes → Option TriageSuppressPayload)
    → Bool
    → Bool
    → Bytes
    → Bytes
    → Bytes
    → Triage
    → Result ActionError Triage
unfolding checked write_triage equal
execute_ai_action parse upsert_fails rebuild_fails action_type proposed actor s =
    if equal action_type (codes "triage.suppress")
    then (checked (parse proposed) >>= λ (p : TriageSuppressPayload).
        write_triage upsert_fails rebuild_fails (triage_of actor p) s)
    else err (unknown_action action_type)
