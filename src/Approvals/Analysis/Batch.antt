-- ===== src/Approvals/Analysis/Batch.antt =====
-- internal/server/api/vuln_analysis.go: `analyzeCandidate` and `runAnalysisBatch`.
use bongsu.Prelude.{
  ℕ, suc, Bool, true, false, not, ◌&&◌, Option, none, some, List, [], ◌∷◌, if◌then◌else◌,
}
use bongsu.Prelude.Result.{Result, ok, err}
use bongsu.Text.{Bytes, equal, is_empty}
use bongsu.Aipolicy.{Config}
use bongsu.Approvals.Actions.{
  AnalysisCandidate, VulnAnalysis, Ai, Codec, Circumstance, govern_ai_analysis_action,
}
use bongsu.Approvals.Execute.{or_value}
use bongsu.Approvals.Analysis.{
  StoredAnalysis, upsert_vuln_analysis, AnalysisError, not_stored, Analyst, assess,
}
use bongsu.Approvals.Analysis.Prompt.{analysis_input_hash}

-- What one round meets: the model's answers, and whether the context is done and the two writes of
-- the analysis fail.
pub record Turn : Type 0 where
  pub circumstance : Circumstance
  pub complete : Bytes → Option Bytes
  pub is_cancelled : Bool
  pub store_fails : Bool
  pub restore_fails : Bool

pub record Assessed : Type 0 where
  pub ai : Ai
  pub analyses : List StoredAnalysis

module _ (p : Analyst) (cfg : Config) (codec : Codec) where
  -- The flag is stored when the policy has applied the action; a failure is only logged.
  abbrev pub after_governing :
      Turn
      → VulnAnalysis
      → Bytes
      → List StoredAnalysis
      → Bool × Ai
      → Result AnalysisError VulnAnalysis × Assessed
  after_governing w a hash rows (false, ai) = (ok a, record { ai = ai; analyses = rows })
  after_governing w a hash rows (true, ai) =
      let applied = record a { auto_applied = true } in
      (
        ok applied,
        record {
          ai = ai;
          analyses = or_value rows (upsert_vuln_analysis w.restore_fails applied hash rows);
        },
      )

  abbrev pub after_storing :
      Turn
      → AnalysisCandidate
      → VulnAnalysis
      → Bytes
      → Assessed
      → Option (List StoredAnalysis)
      → Result AnalysisError VulnAnalysis × Assessed
  after_storing w c a hash s none = (err not_stored, s)
  after_storing w c a hash s (some rows) =
      after_governing w a hash rows (govern_ai_analysis_action cfg codec w.circumstance c a s.ai)

  abbrev pub after_assessing :
      Turn
      → AnalysisCandidate
      → Assessed
      → Result AnalysisError VulnAnalysis
      → Result AnalysisError VulnAnalysis × Assessed
  after_assessing w c s (err e) = (err e, s)
  after_assessing w c s (ok a) =
      let hash = analysis_input_hash p.sha p.verbs c in
      after_storing w c a hash s (upsert_vuln_analysis w.store_fails a hash s.analyses)

  unfoldable pub analyze_candidate :
      Turn → AnalysisCandidate → Assessed → Result AnalysisError VulnAnalysis × Assessed
  unfolding assess upsert_vuln_analysis govern_ai_analysis_action analysis_input_hash
  analyze_candidate w c s = after_assessing w c s (assess p w.complete c)

  -- The facts are those of the stored analysis.
  unfoldable pub is_unchanged : AnalysisCandidate → Bool
  unfolding analysis_input_hash equal
  is_unchanged c =
      not (is_empty c.stored_input_hash)
      && equal c.stored_input_hash (analysis_input_hash p.sha p.verbs c)

  abbrev pub counted : ℕ → Result AnalysisError VulnAnalysis × Assessed → ℕ × Assessed
  counted n (ok a, s) = (suc n, s)
  counted n (err e, s) = (n, s)

  -- A round that is not the last one.
  unfoldable pub analyze_turn : Turn → AnalysisCandidate → ℕ × Assessed → ℕ × Assessed
  unfolding is_unchanged analyze_candidate
  analyze_turn w c (n, s) = if is_unchanged c then (n, s) else counted n (analyze_candidate w c s)

  unfoldable pub analyze_loop :
      (ℕ → Turn) → ℕ → List AnalysisCandidate → ℕ × Assessed → ℕ × Assessed
  unfolding analyze_turn
  analyze_loop turn k [] s = s
  analyze_loop turn k (c ∷ cs) s =
      let rest = analyze_loop turn (suc k) cs (analyze_turn (turn k) c s) in
      if (turn k).is_cancelled then s else rest

  -- The number of the findings that were analyzed; `listed` is the answer of
  -- `ListAnalysisCandidates`, where `none` is an error.
  unfoldable pub run_analysis_batch :
      (ℕ → Turn) → Option (List AnalysisCandidate) → Assessed → Option ℕ × Assessed
  unfolding analyze_loop
  run_analysis_batch turn none s = (none, s)
  run_analysis_batch turn (some cs) s =
      let (n, next) = analyze_loop turn 0 cs (0, s) in (some n, next)
