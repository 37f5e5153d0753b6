-- ===== src/Approvals/Analysis/Assessments.antt =====
-- The rows of the triage that the analysis wrote, and the assessments of their findings.
use bongsu.Prelude.{
  ◌≡◌, refl, sym, ◌∙◌, Bool, true, Option, none, some, not, ◌&&◌, ◌||◌, List, [], ◌∷◌, arith,
  all_of, any_of,
}
use bongsu.Prelude.Sort.{filter}
use bongsu.Text.{Bytes, codes, equal, equal_iff}
use bongsu.Text.Utf8.{is_utf8}
use bongsu.Approvals.Execute.{TriageSuppressPayload, VulnerabilityTriage, triage_of}
use bongsu.Approvals.Actions.{VulnAnalysis}
use bongsu.Approvals.Analysis.{StoredAnalysis, is_same_assessment}

-- The assessment is one of the finding of the row.
abbrev pub is_assessment_of : VulnerabilityTriage → StoredAnalysis → Bool
is_assessment_of row st =
    equal st.analysis.vulnerability_id row.vulnerability_id
    && equal st.analysis.pkg_name row.pkg_name
    && equal st.analysis.host_id row.host_id

-- A row that the analysis wrote has an assessment.
abbrev pub is_explained : List StoredAnalysis → VulnerabilityTriage → Bool
is_explained rows t =
    not (equal t.updated_by (codes "ai-analyzer")) || any_of (is_assessment_of t) rows

-- The payload of a finding that has an assessment.
abbrev pub is_for : TriageSuppressPayload → List StoredAnalysis → Bool
is_for payload rows = any_of (is_assessment_of (triage_of (codes "ai-analyzer") payload)) rows

-- The three identifiers are UTF-8, as the text of the database is.
abbrev pub are_utf8 : Bytes → Bytes → Bytes → Bool
are_utf8 vulnerability host pkg = is_utf8 vulnerability && is_utf8 host && is_utf8 pkg

-- The payload is read with its three identifiers; nothing is said of its other fields.
abbrev pub IsReadAs : TriageSuppressPayload → Option TriageSuppressPayload → Type 0
IsReadAs p none = ⊥
IsReadAs p (some q) =
    (q.vulnerability_id ≡ p.vulnerability_id) × (q.host_id ≡ p.host_id) × (q.pkg_name ≡ p.pkg_name)

pub is_for-read :
    (p q : TriageSuppressPayload) (rows : List StoredAnalysis)
    → IsReadAs p (some q)
    → is_for p rows ≡ true
    → is_for q rows ≡ true
is_for-read p q rows (v, h, n) assessed = rw (v, h, n) assessed

equal_joined : (a b c : Bytes) → equal a b ≡ true → equal a c ≡ true → equal c b ≡ true
equal_joined a b c h k = (equal_iff c b).1 (sym ((equal_iff a c).0 k) ∙ (equal_iff a b).0 h)

-- What replaces an assessment of the finding is one of it.
replaced-is_assessment_of :
    (t : VulnerabilityTriage) (a : VulnAnalysis) (hash : Bytes) (st : StoredAnalysis)
    → is_assessment_of t st ≡ true
    → is_same_assessment a st ≡ true
    → is_assessment_of t (record { analysis = a; input_hash = hash }) ≡ true
replaced-is_assessment_of t a hash st h k =
    let o = st.analysis in
    ground (
      arith,
      h,
      k,
      equal_joined o.vulnerability_id t.vulnerability_id a.vulnerability_id,
      equal_joined o.pkg_name t.pkg_name a.pkg_name,
      equal_joined o.host_id t.host_id a.host_id,
    )

any_of-upsert :
    (t : VulnerabilityTriage) (a : VulnAnalysis) (hash : Bytes) (rows : List StoredAnalysis)
    → any_of (is_assessment_of t) rows ≡ true
    → (is_assessment_of t (record { analysis = a; input_hash = hash })
        || any_of
            (is_assessment_of t)
            (filter (λ (row : StoredAnalysis). not (is_same_assessment a row)) rows))
      ≡ true
unfolding filter
any_of-upsert t a hash [] h = absurd (ground (arith, h))
any_of-upsert t a hash (st ∷ rows) h =
    ground (arith, h, any_of-upsert t a hash rows, replaced-is_assessment_of t a hash st)

-- No assessment that a row needs gets lost.
pub is_explained-upsert :
    (a : VulnAnalysis) (hash : Bytes) (rows : List StoredAnalysis) (ts : List VulnerabilityTriage)
    → all_of (is_explained rows) ts ≡ true
    → all_of
        (is_explained (
          record { analysis = a; input_hash = hash }
          ∷ filter (λ (row : StoredAnalysis). not (is_same_assessment a row)) rows))
        ts
      ≡ true
is_explained-upsert a hash rows [] h = refl
is_explained-upsert a hash rows (t ∷ ts) h =
    ground (arith, h, is_explained-upsert a hash rows ts, any_of-upsert t a hash rows)
