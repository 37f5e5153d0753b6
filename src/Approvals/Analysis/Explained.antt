-- ===== src/Approvals/Analysis/Explained.antt =====
-- The batch of the analysis step by step: its rows of the triage, and the stored assessments.
use bongsu.Prelude.{
  ℕ, suc, ◌≡◌, refl, Bool, true, false, not, Option, none, some, List, [], ◌∷◌, all_of, Bool-cases,
  and_split, inl, inr,
}
use bongsu.Prelude.Result.{Result, ok, err, Ensures, Ensures->>=, Ensures-any}
use bongsu.Prelude.Sort.{filter}
use bongsu.Text.{Bytes, equal_self}
use bongsu.Aipolicy.{none, Config}
use bongsu.Approvals.Execute.{TriageSuppressPayload}
use bongsu.Approvals.Actions.{
  AnalysisCandidate, VulnAnalysis, Ai, Codec, payload_of, govern_ai_analysis_action,
}
use bongsu.Approvals.Analysis.{
  StoredAnalysis, is_same_assessment, upsert_vuln_analysis, Analyst, AnalysisError, analysis_of,
  output_of, assess,
}
use bongsu.Approvals.Analysis.Prompt.{AnalysisOutput, normalize_analysis, analysis_input_hash}
use bongsu.Approvals.Analysis.Batch.{
  Turn, Assessed, after_governing, after_storing, after_assessing, analyze_candidate, analyze_turn,
  is_unchanged, counted, analyze_loop, run_analysis_batch,
}
use bongsu.Approvals.Analysis.Assessments.{
  is_explained, is_explained-upsert, is_for, are_utf8, IsReadAs,
}
use bongsu.Approvals.Analysis.Governed.{govern-IsExplained}

-- A candidate whose identifiers are UTF-8.
abbrev pub is_utf8_named : AnalysisCandidate → Bool
is_utf8_named c = are_utf8 c.vulnerability_id c.host_id c.pkg_name

abbrev pub IsExplained : Assessed → Type 0
IsExplained s = all_of (is_explained s.analyses) s.ai.triage.rows ≡ true

module _ (cfg : Config) (codec : Codec)
    (reads : (p : TriageSuppressPayload)
      → are_utf8 p.vulnerability_id p.host_id p.pkg_name ≡ true
      → IsReadAs p (codec.parse (codec.marshal p)))
    (p : Analyst) where
  after_governing-IsExplained :
      (w : Turn) (a : VulnAnalysis) (hash : Bytes) (rows : List StoredAnalysis) (r : Bool × Ai)
      → all_of (is_explained rows) r.1.triage.rows ≡ true
      → IsExplained (after_governing p cfg codec w a hash rows r).1
  unfolding upsert_vuln_analysis
  after_governing-IsExplained w a hash rows (false, ai) h = h
  after_governing-IsExplained w a hash rows (true, ai) h = elim (Bool-cases w.restore_fails) [
    | inl fails ↦ rw fails h
    | inr works ↦
        rw works (is_explained-upsert (record a { auto_applied = true }) hash rows ai.triage.rows h)
  ]

  -- The assessment of a finding is one for its payload.
  is_for-stored :
      (c : AnalysisCandidate) (a : VulnAnalysis) (out : AnalysisOutput) (status hash : Bytes)
      (rows : List StoredAnalysis)
      → is_for
          (payload_of codec c a status)
          (record { analysis = analysis_of p c out; input_hash = hash } ∷ rows)
        ≡ true
  is_for-stored c a out status hash rows =
      rw (equal_self c.vulnerability_id, equal_self c.pkg_name, equal_self c.host_id) refl

  after_storing-IsExplained :
      (w : Turn) (c : AnalysisCandidate) (out : AnalysisOutput) (hash : Bytes) (s : Assessed)
      → is_utf8_named c ≡ true
      → IsExplained s
      → let a = analysis_of p c out in
        IsExplained
          (after_storing p cfg codec w c a hash s
            (upsert_vuln_analysis w.store_fails a hash s.analyses)).1
  unfolding upsert_vuln_analysis
  after_storing-IsExplained w c out hash s u h =
      let a = analysis_of p c out in
      let old = filter (λ (row : StoredAnalysis). not (is_same_assessment a row)) s.analyses in
      let rows : List StoredAnalysis = record { analysis = a; input_hash = hash } ∷ old in
      elim (Bool-cases w.store_fails) [
        | inl fails ↦ rw fails h
        | inr works ↦ rw works (
            after_governing-IsExplained w a hash rows
              (govern_ai_analysis_action cfg codec w.circumstance c a s.ai)
              (govern-IsExplained cfg codec reads w.circumstance c a rows s.ai u
                (λ status. is_for-stored c a out status hash old)
                (is_explained-upsert a hash s.analyses s.ai.triage.rows h)))
      ]

  abbrev IsOf : AnalysisCandidate → VulnAnalysis → Type 0
  IsOf c a = (out : AnalysisOutput) × (a ≡ analysis_of p c out)

  assess-IsOf :
      (complete : Bytes → Option Bytes) (c : AnalysisCandidate)
      → Ensures (IsOf c) (assess p complete c)
  unfolding assess
  assess-IsOf complete c = elim (Bool-cases p.is_enabled) [
    | inl on ↦ rw on (
        Ensures->>= (λ out. Unit) (IsOf c) (output_of p complete c)
          (λ (out : AnalysisOutput). ok (analysis_of p c (normalize_analysis out)))
          (Ensures-any (output_of p complete c)) (λ out _. (normalize_analysis out, refl)))
    | inr off ↦ rw off tt
  ]

  after_assessing-IsExplained :
      (w : Turn) (c : AnalysisCandidate) (s : Assessed) (r : Result AnalysisError VulnAnalysis)
      → Ensures (IsOf c) r
      → is_utf8_named c ≡ true
      → IsExplained s
      → IsExplained (after_assessing p cfg codec w c s r).1
  after_assessing-IsExplained w c s (err e) k u h = h
  after_assessing-IsExplained w c s (ok a) (out, same) u h =
      rw same (after_storing-IsExplained w c out (analysis_input_hash p.sha p.verbs c) s u h)

  analyze_candidate-IsExplained :
      (w : Turn) (c : AnalysisCandidate) (s : Assessed)
      → is_utf8_named c ≡ true
      → IsExplained s
      → IsExplained (analyze_candidate p cfg codec w c s).1
  unfolding analyze_candidate
  analyze_candidate-IsExplained w c s u h =
      after_assessing-IsExplained w c s (assess p w.complete c) (assess-IsOf w.complete c) u h

  counted-state :
      (n : ℕ) (r : Result AnalysisError VulnAnalysis × Assessed) → (counted p cfg codec n r).1 ≡ r.1
  counted-state n (ok a, s) = refl
  counted-state n (err e, s) = refl

  analyze_turn-IsExplained :
      (w : Turn) (c : AnalysisCandidate) (s : ℕ × Assessed)
      → is_utf8_named c ≡ true
      → IsExplained s.1
      → IsExplained (analyze_turn p cfg codec w c s).1
  unfolding analyze_turn
  analyze_turn-IsExplained w c (n, s) u h = elim (Bool-cases (is_unchanged p cfg codec c)) [
    | inl same ↦ rw same h
    | inr new ↦ rw new (
        rw (counted-state n (analyze_candidate p cfg codec w c s))
          (analyze_candidate-IsExplained w c s u h))
  ]

  analyze_loop-IsExplained :
      (turn : ℕ → Turn) (k : ℕ) (cs : List AnalysisCandidate) (s : ℕ × Assessed)
      → all_of is_utf8_named cs ≡ true
      → IsExplained s.1
      → IsExplained (analyze_loop p cfg codec turn k cs s).1
  unfolding analyze_loop
  analyze_loop-IsExplained turn k [] s u h = h
  analyze_loop-IsExplained turn k (c ∷ cs) s u h = elim (Bool-cases (turn k).is_cancelled) [
    | inl over ↦ rw over h
    | inr goes_on ↦ rw goes_on (
        analyze_loop-IsExplained turn (suc k) cs (analyze_turn p cfg codec (turn k) c s)
          (and_split (is_utf8_named c) u).1
          (analyze_turn-IsExplained (turn k) c s (and_split (is_utf8_named c) u).0 h))
  ]

-- Every candidate of the batch has identifiers in UTF-8; a batch that was not listed has none.
abbrev pub IsUtf8Named : Option (List AnalysisCandidate) → Type 0
IsUtf8Named none = Unit
IsUtf8Named (some cs) = all_of is_utf8_named cs ≡ true

-- When the three identifiers of each listed candidate are UTF-8, encoding/json reads a payload
-- whose three identifiers are UTF-8 back with the same identifiers (of its other fields nothing
-- is asked), and every row of the triage that the analysis (the actor ai-analyzer) wrote is of a
-- finding with a stored assessment, the last holds after `runAnalysisBatch` as well, whatever the
-- model answers and whatever statements of the database fail.
pub run_analysis_batch-IsExplained :
    (p : Analyst) (cfg : Config) (codec : Codec)
    → ((p : TriageSuppressPayload)
        → are_utf8 p.vulnerability_id p.host_id p.pkg_name ≡ true
        → IsReadAs p (codec.parse (codec.marshal p)))
    → (turn : ℕ → Turn) (listed : Option (List AnalysisCandidate)) (s : Assessed)
    → IsUtf8Named listed
    → IsExplained s
    → IsExplained (run_analysis_batch p cfg codec turn listed s).1
unfolding run_analysis_batch
run_analysis_batch-IsExplained p cfg codec reads turn none s u h = h
run_analysis_batch-IsExplained p cfg codec reads turn (some cs) s u h =
    analyze_loop-IsExplained cfg codec reads p turn 0 cs (0, s) u h
