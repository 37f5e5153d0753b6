-- ===== src/Classify/Candidate/Match.antt =====
-- When a product of an advisory is one for a package: the name, the fix, the version, and how the
-- ecosystem and the category are chosen.
use bongsu.Prelude.{
  ◌≡◌, refl, ap, ◌∙◌, Bool, true, false, not, ◌&&◌, ◌||◌, Option, none, some, List, [], ◌∷◌, arith,
  if◌then◌else◌,
}
use bongsu.Text.{Bytes, codes, equal, is_empty, one_of, to_lower}
use bongsu.Classify.{AffectedProduct}
use bongsu.Classify.Candidate.{effective_cat}
use bongsu.Classify.Candidate.Affected.{equal_sym, names_fix, covers}
use bongsu.Classify.Ecosystem.{normalize_ecosystem, package_category}

-- The ecosystem of the product, where it has one, else that of the advisory, is the package's,
-- which is known.
abbrev pub is_of_ecosystem : Bytes → Bytes → Bytes → Bool
is_of_ecosystem pkg cve own =
    not (is_empty pkg) && (equal own pkg || (is_empty own && equal cve pkg))

-- The category of the advisory, or that of the ecosystem for an advisory of no particular one, is
-- the package's, which is known.
abbrev pub is_general : Bytes → Bool
is_general category = one_of category ([] ∷ codes "general-cve" ∷ [])

abbrev pub is_of_category : Bytes → Bytes → Bytes → Bool
is_of_category pkg_cat cve_category eco =
    not (is_empty pkg_cat)
    && ((is_general cve_category && equal (package_category [] eco) pkg_cat)
        || (not (is_general cve_category) && equal cve_category pkg_cat))

abbrev pub is_match : Bytes → Bytes → Bytes → Bytes → Bytes → Bytes → AffectedProduct → Bool
is_match pkg_name pkg_cat pkg_norm_eco installed cve_category cve_norm_eco p =
    equal (to_lower p.name) (to_lower pkg_name)
    && names_fix p
    && is_of_ecosystem pkg_norm_eco cve_norm_eco (normalize_ecosystem p.ecosystem)
    && is_of_category pkg_cat cve_category pkg_norm_eco
    && covers pkg_norm_eco installed p

abbrev pub first_where : (AffectedProduct → Bool) → List AffectedProduct → Option AffectedProduct
first_where q [] = none
first_where q (p ∷ ps) = if q p then some p else first_where q ps

-- What the text of the advisory decodes to: nothing for no text, and for no JSON.
abbrev or_no_products : Option (List AffectedProduct) → List AffectedProduct
or_no_products none = []
or_no_products (some products) = products

abbrev pub products_of : (Bytes → Option (List AffectedProduct)) → Bytes → List AffectedProduct
products_of unmarshal affected =
    if is_empty affected then [] else or_no_products (unmarshal affected)

or_false : (b : Bool) → b ≡ (b || false)
or_false true = refl
or_false false = refl

pub ecosystem_lem :
    (pkg cve own : Bytes)
    → (not (is_empty pkg) && equal pkg (if is_empty own then cve else own))
      ≡ is_of_ecosystem pkg cve own
unfolding equal
ecosystem_lem [] cve own = refl
ecosystem_lem (c ∷ pkg) cve [] = equal_sym (c ∷ pkg) cve
ecosystem_lem (c ∷ pkg) cve (d ∷ own) = ground (arith, equal_sym (c ∷ pkg) (d ∷ own))

-- One of two texts is the package's, by a test.
either_text :
    (g : Bool) (pkg a b : Bytes)
    → equal pkg (if g then a else b) ≡ ((g && equal a pkg) || (not g && equal b pkg))
either_text true pkg a b = equal_sym pkg a ∙ or_false (equal a pkg)
either_text false pkg a b = equal_sym pkg b

is_general_lem :
    (category : Bytes)
    → (is_empty category || equal category (codes "general-cve")) ≡ is_general category
unfolding one_of equal
is_general_lem [] = refl
is_general_lem (c ∷ category) = or_false (equal (c ∷ category) (codes "general-cve"))

effective_cat_lem :
    (cve_category eco : Bytes)
    → effective_cat cve_category eco
      ≡ (if is_general cve_category then package_category [] eco else cve_category)
unfolding effective_cat
effective_cat_lem cve_category eco = rw (is_general_lem cve_category) refl

pub category_lem :
    (pkg_cat cve_category eco : Bytes)
    → (not (is_empty pkg_cat) && equal pkg_cat (effective_cat cve_category eco))
      ≡ is_of_category pkg_cat cve_category eco
category_lem pkg_cat cve_category eco =
    ap (λ b. not (is_empty pkg_cat) && b)
      (ap (equal pkg_cat) (effective_cat_lem cve_category eco)
        ∙ either_text (is_general cve_category) pkg_cat (package_category [] eco) cve_category)
