-- ===== src/Classify/Candidate/Sound.antt =====
-- What `compatibleSecurityCandidate` matches, for any product and in both directions.
use bongsu.Prelude.{
  ◌≡◌, refl, sym, ap, ◌∙◌, Bool, true, false, not, ◌&&◌, ◌||◌, Option, some, List, [], ◌∷◌, arith,
  if◌then◌else◌, Bool-cases, Option-cases, inl, inr,
}
use bongsu.Text.{Bytes, equal, equal_iff, equal_fold, is_empty, to_lower}
use bongsu.Classify.{AffectedProduct}
use bongsu.Classify.Candidate.{
  effective_eco, effective_cat, has_no_fix, first_match, compatible_security_candidate,
}
use bongsu.Classify.Candidate.Affected.{
  names_fix, covers, fixed_versions-names_fix, version_is_affected_lem,
}
use bongsu.Classify.Candidate.Match.{
  is_of_ecosystem, is_of_category, is_match, first_where, products_of, ecosystem_lem, category_lem,
}
use bongsu.Classify.Ecosystem.{normalize_ecosystem, package_category}
use bongsu.Classify.Fixed.{fixed_versions}
use bongsu.Classify.Range.{version_is_affected}

-- The tests of one round of the loop, as one.
abbrev accepts : Bytes → Bytes → Bytes → Bytes → Bytes → Bytes → AffectedProduct → Bool
accepts pkg_name pkg_cat pkg_norm_eco installed cve_category cve_norm_eco p =
    let eco = effective_eco cve_norm_eco p in
    equal_fold p.name pkg_name
    && (not (has_no_fix (fixed_versions p))
        && (version_is_affected eco installed p
            && (not (is_empty pkg_cat)
                && (equal pkg_cat (effective_cat cve_category eco)
                    && (not (is_empty pkg_norm_eco) && equal pkg_norm_eco eco)))))

-- The guards of the loop with the `continue` of each, as one test.
one_test :
    {A : Type 0} (name no_eco no_fix hit no_cat no_cat' cats no_pkg ecos : Bool)
    → (cats ≡ true → no_cat ≡ no_cat')
    → (ecos ≡ true → no_pkg ≡ no_eco)
    → (found rest : A)
    → (if not name
        then rest
        else if no_eco
        then rest
        else if no_fix
        then rest
        else if not hit
        then rest
        else if no_cat || no_cat' || not cats
        then rest
        else if no_pkg || no_eco || not ecos
        then rest
        else found)
      ≡ (if name && (not no_fix && (hit && (not no_cat && (cats && (not no_pkg && ecos)))))
          then found
          else rest)
one_test false no_eco no_fix hit no_cat no_cat' cats no_pkg ecos p q found rest = refl
one_test true no_eco true hit no_cat no_cat' cats no_pkg ecos p q found rest = ground arith
one_test true no_eco false false no_cat no_cat' cats no_pkg ecos p q found rest = ground arith
one_test true no_eco false true no_cat no_cat' false no_pkg ecos p q found rest = ground arith
one_test true no_eco false true no_cat no_cat' true no_pkg false p q found rest = ground arith
one_test true no_eco false true no_cat no_cat' true no_pkg true p q found rest =
    rw (p refl, q refl) (ground arith)

regroup : (a b c d e : Bool) → (a && (b && (c && d && e))) ≡ (a && b && c && d && e)
regroup a b c d e = ground arith

equal_fold_lem : (s t : Bytes) → equal_fold s t ≡ equal (to_lower s) (to_lower t)
unfolding equal_fold
equal_fold_lem s t = refl

-- Where the ecosystems agree, it does not matter with which of them the rest is asked.
agreeing :
    (pkg_cat pkg_norm_eco installed cve_category eco : Bytes) (p : AffectedProduct)
    → (version_is_affected eco installed p
        && (not (is_empty pkg_cat)
            && (equal pkg_cat (effective_cat cve_category eco)
                && (not (is_empty pkg_norm_eco) && equal pkg_norm_eco eco))))
      ≡ ((not (is_empty pkg_norm_eco) && equal pkg_norm_eco eco)
          && (not (is_empty pkg_cat) && equal pkg_cat (effective_cat cve_category pkg_norm_eco))
          && version_is_affected pkg_norm_eco installed p)
agreeing pkg_cat pkg_norm_eco installed cve_category eco p =
    elim (Bool-cases (equal pkg_norm_eco eco)) [
      | inl same ↦ rw (sym ((equal_iff pkg_norm_eco eco).0 same)) (ground arith)
      | inr other ↦ rw other (ground arith)
    ]

module _ (pkg_name pkg_cat pkg_norm_eco installed cve_category cve_norm_eco : Bytes) where
  accepts-is_match :
      (p : AffectedProduct)
      → accepts pkg_name pkg_cat pkg_norm_eco installed cve_category cve_norm_eco p
        ≡ is_match pkg_name pkg_cat pkg_norm_eco installed cve_category cve_norm_eco p
  unfolding effective_eco
  accepts-is_match p =
      rw
        (
          agreeing pkg_cat pkg_norm_eco installed cve_category (effective_eco cve_norm_eco p) p,
          fixed_versions-names_fix p,
          ecosystem_lem pkg_norm_eco cve_norm_eco (normalize_ecosystem p.ecosystem),
          category_lem pkg_cat cve_category pkg_norm_eco,
          version_is_affected_lem pkg_norm_eco installed p,
          equal_fold_lem p.name pkg_name,
        )
        (regroup (equal (to_lower p.name) (to_lower pkg_name)) (names_fix p)
          (is_of_ecosystem pkg_norm_eco cve_norm_eco (normalize_ecosystem p.ecosystem))
          (is_of_category pkg_cat cve_category pkg_norm_eco) (covers pkg_norm_eco installed p))

  first_match-cons :
      (q : AffectedProduct) (qs : List AffectedProduct)
      → first_match pkg_name pkg_cat pkg_norm_eco installed cve_category cve_norm_eco (q ∷ qs) ≡ (
          if accepts pkg_name pkg_cat pkg_norm_eco installed cve_category cve_norm_eco q
          then some q
          else first_match pkg_name pkg_cat pkg_norm_eco installed cve_category cve_norm_eco qs)
  unfolding first_match
  first_match-cons q qs =
      let eco = effective_eco cve_norm_eco q in
      let cat = effective_cat cve_category eco in
      one_test (equal_fold q.name pkg_name) (is_empty eco) (has_no_fix (fixed_versions q))
        (version_is_affected eco installed q) (is_empty pkg_cat) (is_empty cat) (equal pkg_cat cat)
        (is_empty pkg_norm_eco) (equal pkg_norm_eco eco)
        (λ h. ap is_empty ((equal_iff pkg_cat cat).0 h))
        (λ h. ap is_empty ((equal_iff pkg_norm_eco eco).0 h)) (some q) _

  first_match_lem :
      (ps : List AffectedProduct)
      → first_match pkg_name pkg_cat pkg_norm_eco installed cve_category cve_norm_eco ps
        ≡ first_where
            (is_match pkg_name pkg_cat pkg_norm_eco installed cve_category cve_norm_eco)
            ps
  unfolding first_match
  first_match_lem [] = refl
  first_match_lem (q ∷ qs) =
      first_match-cons q qs ∙ rw (accepts-is_match q, first_match_lem qs) refl

-- `compatibleSecurityCandidate` returns the first product of what the JSON decodes to that
-- matches, and none when no product does. A product matches when it has the name of the package
-- up to case; some text of its fixed versions or of the fixes in its ranges is a safe version;
-- its ecosystem, or that of the advisory if it has none, is the package's, which is known; the
-- category of the advisory, or that of the ecosystem for an advisory of none or of the general
-- one, is the package's, which is known; and the installed version, which is given, is in one of
-- its ranges by `versionInRange`, or, without ranges, below its safe fixed versions, which are
-- all one text.
pub compatible_security_candidate_lem :
    (unmarshal : Bytes → Option (List AffectedProduct))
    (pkg_name pkg_type pkg_eco installed cve_category cve_eco affected : Bytes)
    → compatible_security_candidate unmarshal pkg_name pkg_type pkg_eco installed cve_category
        cve_eco affected
      ≡ first_where
          (is_match pkg_name
            (package_category pkg_type pkg_eco)
            (normalize_ecosystem pkg_eco)
            installed
            cve_category
            (normalize_ecosystem cve_eco))
          (products_of unmarshal affected)
unfolding compatible_security_candidate
compatible_security_candidate_lem unmarshal pkg_name pkg_type pkg_eco installed cve_category cve_eco
      affected =
    elim (Bool-cases (is_empty affected)) [
      | inl blank ↦ rw blank refl
      | inr given ↦ elim (Option-cases (unmarshal affected)) [
        | inl bad ↦ rw (compatible_security_candidate, given, bad) refl
        | inr (products, read) ↦
            rw (compatible_security_candidate, given, read)
              (first_match_lem pkg_name (package_category pkg_type pkg_eco)
                (normalize_ecosystem pkg_eco) installed cve_category (normalize_ecosystem cve_eco)
                products)
      ]
    ]
