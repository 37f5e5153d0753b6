-- ===== src/Classify/Candidate.antt =====
-- internal/server/db/classify.go: the match of a package against an advisory.
pub mod Affected
pub mod Match
pub mod Sound
use bongsu.Prelude.{
  ◌≡◌, refl, Bool, true, false, not, ◌&&◌, ◌||◌, Option, none, some, List, [], ◌∷◌, arith,
  if◌then◌else◌, any_of, Bool-cases, Option-cases, inl, inr,
}
use bongsu.Text.{Bytes, codes, equal, equal_fold, is_empty, to_lower}
use bongsu.Classify.{AffectedProduct}
use bongsu.Classify.Ecosystem.{is_os_ecosystem, normalize_ecosystem, package_category}
use bongsu.Classify.Fixed.{fixed_versions}
use bongsu.Classify.Range.{version_is_affected}

-- `effectiveEco`: the product's ecosystem, or else the advisory's.
unfoldable pub effective_eco : Bytes → AffectedProduct → Bytes
unfolding normalize_ecosystem
effective_eco cve_norm_eco p =
    let affected_eco = normalize_ecosystem p.ecosystem in
    if is_empty affected_eco then cve_norm_eco else affected_eco

-- `effectiveCat`.
unfoldable pub effective_cat : Bytes → Bytes → Bytes
unfolding package_category equal
effective_cat cve_category eco =
    if is_empty cve_category || equal cve_category (codes "general-cve")
    then package_category [] eco
    else cve_category

abbrev pub has_no_fix : List Bytes → Bool
has_no_fix [] = true
has_no_fix (f ∷ fs) = false

-- The loop of `compatibleSecurityCandidate` over the products.
unfoldable pub first_match :
    Bytes → Bytes → Bytes → Bytes → Bytes → Bytes → List AffectedProduct → Option AffectedProduct
unfolding effective_eco effective_cat equal_fold fixed_versions version_is_affected
first_match pkg_name pkg_cat pkg_norm_eco installed cve_category cve_norm_eco [] = none
first_match pkg_name pkg_cat pkg_norm_eco installed cve_category cve_norm_eco (p ∷ ps) =
    let rest = first_match pkg_name pkg_cat pkg_norm_eco installed cve_category cve_norm_eco ps in
    let eco = effective_eco cve_norm_eco p in
    let cat = effective_cat cve_category eco in
    if not (equal_fold p.name pkg_name)
    then rest
    else if is_empty eco
    then rest
    else if has_no_fix (fixed_versions p)
    then rest
    else if not (version_is_affected eco installed p)
    then rest
    else if is_empty pkg_cat || is_empty cat || not (equal pkg_cat cat)
    then rest
    else if is_empty pkg_norm_eco || is_empty eco || not (equal pkg_norm_eco eco)
    then rest
    else some p

module _ (unmarshal : Bytes → Option (List AffectedProduct)) where
  -- `json.Unmarshal` is a parameter; `none` is its error.
  unfoldable pub compatible_security_candidate :
      Bytes → Bytes → Bytes → Bytes → Bytes → Bytes → Bytes → Option AffectedProduct
  unfolding first_match
  compatible_security_candidate pkg_name pkg_type pkg_eco installed cve_category cve_eco affected =
      let pkg_cat = package_category pkg_type pkg_eco in
      if is_empty affected then none else elim (unmarshal affected) [
        | none ↦ none
        | some products ↦
            first_match pkg_name pkg_cat (normalize_ecosystem pkg_eco) installed cve_category
              (normalize_ecosystem cve_eco) products
      ]
