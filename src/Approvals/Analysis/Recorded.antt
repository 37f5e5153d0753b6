-- ===== src/Approvals/Analysis/Recorded.antt =====
-- What an analysis stores, and that a failed one leaves everything as it was.
use bongsu.Prelude.{
  ◌≤◌, ◌≡◌, refl, sym, ap, ◌∙◌, Bool, true, false, not, Option, List, ◌∷◌, arith, length,
  length-take-le, if◌then◌else◌, Bool-cases, inl, inr, ◌⊎◌,
}
use bongsu.Prelude.Int.{ℤ, pos, negsuc}
use bongsu.Prelude.Result.{
  Result, ok, err, Result-cases, Ensures, Ensures->>=, Ensures-any, Ensures-ok,
}
use bongsu.Prelude.Sort.{filter, filter-filter}
use bongsu.Text.{Bytes, codes, equal, equal_self, one_of, to_lower, trim_space}
use bongsu.Aipolicy.{Config}
use bongsu.Approvals.Actions.{AnalysisCandidate, VulnAnalysis, Ai, Codec, govern_ai_analysis_action}
use bongsu.Approvals.Analysis.{
  natural, StoredAnalysis, is_same_assessment, upsert_vuln_analysis, AnalysisError, not_stored,
  Analyst, analysis_of, output_of, assess,
}
use bongsu.Approvals.Analysis.Prompt.{
  AnalysisOutput, valid_risk, valid_exploit, valid_action, one_or_default, clamped,
  normalize_analysis, analysis_input_hash,
}
use bongsu.Approvals.Analysis.Batch.{
  Turn, Assessed, after_governing, after_storing, analyze_candidate,
}

-- The assessment is of the finding, and in the schema that the prompt asks for.
pub record IsInSchema (c : AnalysisCandidate) (a : VulnAnalysis) : Type 0 where
  pub vulnerability : a.vulnerability_id ≡ c.vulnerability_id
  pub package_of : a.pkg_name ≡ c.pkg_name
  pub host : a.host_id ≡ c.host_id
  pub risk : one_of a.risk_level valid_risk ≡ true
  pub exploitability : one_of a.exploitability valid_exploit ≡ true
  pub action : one_of a.recommended_action valid_action ≡ true
  pub confidence : a.confidence ≤ 1000
  pub reasoning : length a.reasoning ≤ 4000
  pub flag : a.auto_applied ≡ false

one_or_default-valid :
    (valid : List Bytes) (d s : Bytes)
    → one_of d valid ≡ true
    → one_of (one_or_default valid d s) valid ≡ true
one_or_default-valid valid d s h = elim (Bool-cases (one_of s valid)) [
  | inl is ↦ rw is is
  | inr other ↦ rw other h
]

clamped-le : (z : ℤ) → natural (clamped z) ≤ 1000
clamped-le (pos n) = ground arith
clamped-le (negsuc n) = omega arith

assess-IsInSchema :
    (p : Analyst) (complete : Bytes → Option Bytes) (c : AnalysisCandidate)
    → Ensures (IsInSchema c) (assess p complete c)
unfolding assess normalize_analysis one_of equal
assess-IsInSchema p complete c = elim (Bool-cases p.is_enabled) [
  | inl on ↦ rw on (
      Ensures->>= (λ out. Unit) (IsInSchema c) (output_of p complete c)
        (λ (out : AnalysisOutput). ok (analysis_of p c (normalize_analysis out)))
        (Ensures-any (output_of p complete c))
        (λ out _. record {
          vulnerability = refl;
          package_of = refl;
          host = refl;
          risk =
              one_or_default-valid valid_risk (codes "informational")
                (to_lower (trim_space out.risk_level)) refl;
          exploitability =
              one_or_default-valid valid_exploit (codes "theoretical")
                (to_lower (trim_space out.exploitability)) refl;
          action =
              one_or_default-valid valid_action (codes "investigate")
                (to_lower (trim_space out.recommended_action)) refl;
          confidence = clamped-le out.confidence;
          reasoning = length-take-le 4000 out.reasoning;
          flag = refl;
        }))
  | inr off ↦ rw off tt
]

module _ (p : Analyst) (cfg : Config) (codec : Codec) where
  abbrev pub others : VulnAnalysis → List StoredAnalysis → List StoredAnalysis
  others a rows = filter (λ (row : StoredAnalysis). not (is_same_assessment a row)) rows

  -- A finding was assessed, the policy has seen the assessment, and it is stored with the flag that
  -- says whether the action was applied; the flag is missing when the second write fails.
  pub record IsRecorded (w : Turn) (c : AnalysisCandidate) (s : Assessed) (a : VulnAnalysis)
      (next : Assessed) : Type 0 where
    pub assessed : VulnAnalysis
    pub answer : assess p w.complete c ≡ ok assessed
    pub schema : IsInSchema c assessed
    pub ai : next.ai ≡ (govern_ai_analysis_action cfg codec w.circumstance c assessed s.ai).1
    pub result : a ≡ record assessed {
      auto_applied = (govern_ai_analysis_action cfg codec w.circumstance c assessed s.ai).0;
    }
    pub analyses :
        next.analyses
        ≡ record {
          analysis = if w.restore_fails then assessed else a;
          input_hash = analysis_input_hash p.sha p.verbs c;
        }
          ∷ others assessed s.analyses

  abbrev IsWhole :
      Turn → AnalysisCandidate → Assessed → Result AnalysisError VulnAnalysis × Assessed → Type 0
  IsWhole w c s r =
      ((e : AnalysisError) × (r ≡ (err e, s)))
      ⊎ ((a : VulnAnalysis) × (r.0 ≡ ok a) × IsRecorded w c s a r.1)

  upsert-again :
      (a : VulnAnalysis) (hash : Bytes) (rows : List StoredAnalysis)
      → others a (record { analysis = a; input_hash = hash } ∷ others a rows) ≡ others a rows
  unfolding filter
  upsert-again a hash rows =
      rw (equal_self a.vulnerability_id, equal_self a.pkg_name, equal_self a.host_id)
        (filter-filter (λ (row : StoredAnalysis). not (is_same_assessment a row)) rows)

  after_governing-IsWhole :
      (w : Turn) (c : AnalysisCandidate) (s : Assessed) (a : VulnAnalysis) (r : Bool × Ai)
      → assess p w.complete c ≡ ok a
      → IsInSchema c a
      → govern_ai_analysis_action cfg codec w.circumstance c a s.ai ≡ r
      → let hash = analysis_input_hash p.sha p.verbs c in
        IsWhole w c s (
          after_governing p cfg codec w a hash
            (record { analysis = a; input_hash = hash } ∷ others a s.analyses)
            r)
  unfolding upsert_vuln_analysis
  after_governing-IsWhole w c s a (false, ai) answer schema h =
      let flag : a.auto_applied ≡ (govern_ai_analysis_action cfg codec w.circumstance c a s.ai).0 =
        schema.flag ∙ sym (ap (λ (r : Bool × Ai). r.0) h) in
      inr (
        a,
        refl,
        record {
          assessed = a;
          answer = answer;
          schema = schema;
          ai = sym (ap (λ (r : Bool × Ai). r.1) h);
          result = λ i. record a { auto_applied = flag i };
          analyses = elim (Bool-cases w.restore_fails) [
            | inl fails ↦ rw fails refl
            | inr works ↦ rw works refl
          ];
        },
      )
  after_governing-IsWhole w c s a (true, ai) answer schema h =
      let hash = analysis_input_hash p.sha p.verbs c in
      let flag : true ≡ (govern_ai_analysis_action cfg codec w.circumstance c a s.ai).0 =
        sym (ap (λ (r : Bool × Ai). r.0) h) in
      inr (
        record a { auto_applied = true },
        refl,
        record {
          assessed = a;
          answer = answer;
          schema = schema;
          ai = sym (ap (λ (r : Bool × Ai). r.1) h);
          result = λ i. record a { auto_applied = flag i };
          analyses = elim (Bool-cases w.restore_fails) [
            | inl fails ↦ rw fails refl
            | inr works ↦ rw works (
                ap
                  (λ (rows : List StoredAnalysis).
                    record { analysis = record a { auto_applied = true }; input_hash = hash }
                    ∷ rows)
                  (upsert-again a hash s.analyses))
          ];
        },
      )

  after_storing-IsWhole :
      (fails : Bool) (w : Turn) (c : AnalysisCandidate) (s : Assessed) (a : VulnAnalysis)
      → assess p w.complete c ≡ ok a
      → let hash = analysis_input_hash p.sha p.verbs c in
        IsWhole w c s
          (after_storing p cfg codec w c a hash s (upsert_vuln_analysis fails a hash s.analyses))
  unfolding upsert_vuln_analysis
  after_storing-IsWhole true w c s a answer = inl (not_stored, refl)
  after_storing-IsWhole false w c s a answer =
      after_governing-IsWhole w c s a (govern_ai_analysis_action cfg codec w.circumstance c a s.ai)
        answer
        (Ensures-ok (IsInSchema c) (assess p w.complete c) (assess-IsInSchema p w.complete c)
          answer)
        refl

-- `analyzeCandidate` either fails and leaves everything as it was, or gives an analysis whose
-- assessment is of the finding and in the schema (`IsInSchema`: the valid risks, exploitabilities
-- and actions, a confidence of at most 1, at most 4000 bytes of reasoning); the policy has seen
-- the assessment, the flag of the analysis says whether the action was applied, and the analysis
-- with the hash of the facts stands in place of the stored ones of the finding, without the flag
-- when the second write fails.
pub analyze_candidate-IsWhole :
    (p : Analyst) (cfg : Config) (codec : Codec) (w : Turn) (c : AnalysisCandidate) (s : Assessed)
    → let r = analyze_candidate p cfg codec w c s in
      ((e : AnalysisError) × (r ≡ (err e, s)))
      ⊎ ((a : VulnAnalysis) × (r.0 ≡ ok a) × IsRecorded p cfg codec w c s a r.1)
unfolding analyze_candidate
analyze_candidate-IsWhole p cfg codec w c s = elim (Result-cases (assess p w.complete c)) [
  | inl (a, answer) ↦ rw answer (after_storing-IsWhole p cfg codec w.store_fails w c s a answer)
  | inr (e, failed) ↦ rw failed (inl (e, refl))
]
