-- ===== src/Approvals/Analysis/Prompt.antt =====
-- internal/server/api/vuln_analysis.go: what a language model is asked about a finding, the schema of its
-- answer, and the hash of the facts.
use bongsu.Prelude.{ℕ, Bool, true, false, List, [], ◌∷◌, ◌++◌, ltb, if◌then◌else◌, take}
use bongsu.Prelude.Int.{ℤ, pos, negsuc}
use bongsu.Text.{Bytes, codes, is_empty, join, one_of, to_lower, trim_space}
use bongsu.Approvals.Actions.{AnalysisCandidate}

-- The schema of an answer. The confidence is a number of thousandths.
pub record AnalysisOutput : Type 0 where
  pub risk_level : Bytes
  pub likely_false_positive : Bool
  pub exploitability : Bytes
  pub recommended_action : Bytes
  pub reasoning : Bytes
  pub confidence : ℤ

abbrev pub valid_risk : List Bytes
valid_risk =
    codes "critical" ∷ codes "high" ∷ codes "medium" ∷ codes "low" ∷ codes "informational" ∷ []

abbrev pub valid_exploit : List Bytes
valid_exploit = codes "active" ∷ codes "likely" ∷ codes "unlikely" ∷ codes "theoretical" ∷ []

abbrev pub valid_action : List Bytes
valid_action =
    codes "patch"
    ∷ codes "accept_risk"
    ∷ codes "false_positive"
    ∷ codes "investigate"
    ∷ codes "monitor"
    ∷ []

abbrev pub one_or_default : List Bytes → Bytes → Bytes → Bytes
one_or_default valid d s = if one_of s valid then s else d

abbrev pub clamped : ℤ → ℤ
clamped (negsuc n) = pos 0
clamped (pos n) = if ltb 1000 n then pos 1000 else pos n

unfoldable pub normalize_analysis : AnalysisOutput → AnalysisOutput
unfolding one_of to_lower trim_space
normalize_analysis o = record o {
  risk_level =
      one_or_default valid_risk (codes "informational") (to_lower (trim_space o.risk_level));
  exploitability =
      one_or_default valid_exploit (codes "theoretical") (to_lower (trim_space o.exploitability));
  recommended_action =
      one_or_default valid_action (codes "investigate")
        (to_lower (trim_space o.recommended_action));
  confidence = clamped o.confidence;
  reasoning = take 4000 o.reasoning;
}

-- The verbs of `fmt`: %.1f of tenths, %.4f of ten-thousandths, and %t.
pub record Verbs : Type 0 where
  pub fixed1 : ℕ → Bytes
  pub fixed4 : ℕ → Bytes

abbrev pub bool_text : Bool → Bytes
bool_text true = codes "true"
bool_text false = codes "false"

abbrev pub title_line : Bytes → Bytes
title_line title = if is_empty title then [] else codes "Title: " ++ title ++ codes "\n"

abbrev pub fixed_text : Bytes → Bytes
fixed_text version = if is_empty (trim_space version) then codes "(none published)" else version

unfoldable pub build_analysis_user_prompt : Verbs → AnalysisCandidate → Bytes
unfolding trim_space
build_analysis_user_prompt verbs c =
    codes "Vulnerability: "
    ++ c.vulnerability_id
    ++ codes "\n"
    ++ title_line c.title
    ++ codes "Description: "
    ++ take 2000 c.description
    ++ codes "\nCVSS base score: "
    ++ verbs.fixed1 c.cvss_score
    ++ codes "\nReported severity: "
    ++ c.severity
    ++ codes "\nEPSS (exploit probability): "
    ++ verbs.fixed4 c.epss_score
    ++ codes "\nKnown exploited (KEV): "
    ++ (if c.known_exploited
        then codes "YES (CISA Known Exploited Vulnerabilities)"
        else codes "no")
    ++ codes "\nAffected package: "
    ++ c.pkg_name
    ++ codes " (ecosystem: "
    ++ c.ecosystem
    ++ codes ")\nInstalled version: "
    ++ c.installed_version
    ++ codes "\nFixed version: "
    ++ fixed_text c.fixed_version
    ++ codes "\nHost: "
    ++ c.hostname
    ++ codes " (environment: "
    ++ c.environment
    ++ codes ", criticality: "
    ++ c.criticality
    ++ codes ")\nHost has a non-loopback listening service (network exposed): "
    ++ (if c.host_network_exposed then codes "yes" else codes "no")
    ++ codes "\n"

-- The text that is hashed.
unfoldable pub input_key : Verbs → AnalysisCandidate → Bytes
unfolding join
input_key verbs c = join b'|' (
    c.vulnerability_id
    ∷ c.pkg_name
    ∷ c.host_id
    ∷ c.hostname
    ∷ c.severity
    ∷ verbs.fixed1 c.cvss_score
    ∷ verbs.fixed4 c.epss_score
    ∷ bool_text c.known_exploited
    ∷ c.installed_version
    ∷ c.fixed_version
    ∷ c.ecosystem
    ∷ c.environment
    ∷ c.criticality
    ∷ bool_text c.host_network_exposed
    ∷ c.title
    ∷ c.description
    ∷ [])

-- `sha` is SHA-256 with its digits.
unfoldable pub analysis_input_hash : (Bytes → Bytes) → Verbs → AnalysisCandidate → Bytes
unfolding input_key
analysis_input_hash sha verbs c = sha (input_key verbs c)
