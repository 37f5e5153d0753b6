-- ===== src/Classify/Cpe.antt =====
-- internal/server/db/classify.go: the match of a runtime against the CPE entries of NVD.
pub mod Bounds
use bongsu.Prelude.{
  Ordering, ◌≡◌, Bool, true, false, not, ◌&&◌, ◌||◌, Option, none, some, List, [], ◌∷◌, ◌++◌, arith,
  ◌==◌, if◌then◌else◌, all_of, any_of, refl,
}
use bongsu.Text.{Bytes, codes, equal, is_empty, trim_space, to_lower, one_of}
use bongsu.Vercmp.{compare}
use bongsu.Classify.{AffectedProduct}

-- The three calls of `strings.ReplaceAll` in `cpeNormProduct`.
unfoldable pub drop_punctuation : Bytes → Bytes
drop_punctuation [] = []
drop_punctuation (c ∷ s) =
    let rest = drop_punctuation s in if c == b'.' || c == b'_' || c == b'-' then rest else c ∷ rest

unfoldable pub cpe_norm_product : Bytes → Bytes
unfolding drop_punctuation one_of
cpe_norm_product text =
    let s = drop_punctuation text in
    if one_of s (codes "nodejs" ∷ codes "node" ∷ [])
    then codes "nodejs"
    else if one_of s (
        codes "jdk"
        ∷ codes "jre"
        ∷ codes "openjdk"
        ∷ codes "java"
        ∷ codes "javase"
        ∷ codes "javasedevelopmentkit"
        ∷ [])
    then codes "jdk"
    else if one_of s (codes "go" ∷ codes "golang" ∷ [])
    then codes "go"
    else s

unfoldable pub cpe_product_matches : Bytes → Bytes → Bool
unfolding cpe_norm_product equal
cpe_product_matches pkg_product adv_product =
    if equal pkg_product adv_product
    then true
    else equal (cpe_norm_product pkg_product) (cpe_norm_product adv_product)

-- `cpeRuntimeVendors`; `none` is a missing key.
unfoldable pub cpe_runtime_vendors : Bytes → Option (List Bytes)
unfolding equal
cpe_runtime_vendors product =
    if equal product (codes "python")
    then some (codes "python" ∷ codes "python_software_foundation" ∷ [])
    else if equal product (codes "nodejs")
    then some (codes "nodejs" ∷ codes "node.js" ∷ [])
    else if equal product (codes "jdk")
    then some (
        codes "oracle"
        ∷ codes "sun"
        ∷ codes "eclipse"
        ∷ codes "adoptium"
        ∷ codes "azul"
        ∷ codes "ibm"
        ∷ codes "redhat"
        ∷ codes "red_hat"
        ∷ codes "amazon"
        ∷ codes "bellsoft"
        ∷ codes "sap"
        ∷ codes "temurin"
        ∷ codes "openjdk"
        ∷ [])
    else if equal product (codes "go")
    then some (codes "golang" ∷ codes "google" ∷ [])
    else if equal product (codes "ruby")
    then some (codes "ruby-lang" ∷ codes "ruby" ∷ [])
    else if equal product (codes "php")
    then some (codes "php" ∷ codes "php_group" ∷ [])
    else none

unfoldable pub cpe_vendor_compatible : Bytes → Bytes → Bool
unfolding cpe_runtime_vendors cpe_norm_product one_of
cpe_vendor_compatible pkg_product adv_vendor =
    if is_empty adv_vendor
    then true
    else elim (cpe_runtime_vendors (cpe_norm_product pkg_product)) [
      | none ↦ true
      | some allowed ↦ one_of adv_vendor allowed
    ]

unfoldable pub vercmp_generic : Bytes → Bytes → Option Ordering
unfolding compare
vercmp_generic a b = compare [] a b

-- The tests of the four bounds: `!ok || cmp < 0` and so on, negated.
abbrev pub at_least : Option Ordering → Bool
at_least none = false
at_least (some Ordering.lt) = false
at_least (some _) = true

abbrev pub above : Option Ordering → Bool
above (some Ordering.gt) = true
above _ = false

abbrev pub at_most : Option Ordering → Bool
at_most none = false
at_most (some Ordering.gt) = false
at_most (some _) = true

abbrev pub below : Option Ordering → Bool
below (some Ordering.lt) = true
below _ = false

abbrev pub is_same : Option Ordering → Bool
is_same (some Ordering.eq) = true
is_same _ = false

-- Without a bound: only an exact pinned version counts.
abbrev pub exact_match : Bytes → Bytes → Bool
exact_match installed exact =
    if is_empty exact || equal exact (codes "*") || equal exact (codes "-")
    then false
    else is_same (vercmp_generic installed exact)

unfoldable pub cpe_version_affected : Bytes → AffectedProduct → Bool
unfolding vercmp_generic trim_space equal
cpe_version_affected installed p =
    let start_incl = trim_space p.version_start_including in
    let start_excl = trim_space p.version_start_excluding in
    let end_incl = trim_space p.version_end_including in
    let end_excl = trim_space p.version_end_excluding in
    let has_bound =
      not (is_empty start_incl)
      || not (is_empty start_excl)
      || not (is_empty end_incl)
      || not (is_empty end_excl) in
    if not has_bound
    then exact_match installed (trim_space p.version)
    else if not (is_empty start_incl) && not (at_least (vercmp_generic installed start_incl))
    then false
    else if not (is_empty start_excl) && not (above (vercmp_generic installed start_excl))
    then false
    else if not (is_empty end_incl) && not (at_most (vercmp_generic installed end_incl))
    then false
    else if not (is_empty end_excl) && not (below (vercmp_generic installed end_excl))
    then false
    else true

-- The loop of `compatibleCPECandidate` over the products.
unfoldable pub first_cpe_match : Bytes → Bytes → List AffectedProduct → Option AffectedProduct
unfolding cpe_product_matches cpe_vendor_compatible cpe_version_affected
first_cpe_match cpe_product installed [] = none
first_cpe_match cpe_product installed (p ∷ ps) =
    let rest = first_cpe_match cpe_product installed ps in
    if not (cpe_product_matches cpe_product (to_lower (trim_space p.product)))
    then rest
    else if not (cpe_vendor_compatible cpe_product (to_lower (trim_space p.vendor)))
    then rest
    else if cpe_version_affected installed p
    then some p
    else rest

module _ (unmarshal : Bytes → Option (List AffectedProduct)) where
  -- `json.Unmarshal` is a parameter; `none` is its error.
  unfoldable pub compatible_cpe_candidate : Bytes → Bytes → Bytes → Option AffectedProduct
  unfolding first_cpe_match
  compatible_cpe_candidate product version affected_products =
      let cpe_product = to_lower (trim_space product) in
      let installed = trim_space version in
      if is_empty cpe_product || is_empty installed || is_empty affected_products
      then none
      else elim (unmarshal affected_products) [
        | none ↦ none
        | some products ↦ first_cpe_match cpe_product installed products
      ]
