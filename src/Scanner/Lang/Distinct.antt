-- ===== src/Scanner/Lang/Distinct.antt =====
-- Each package of a language is reported once: `dedupeLangPackages` keeps the first of each key.
use bongsu.Prelude.{
  ◌≡◌, refl, ◌∙◌, true, false, Option, none, some, List, [], ◌∷◌, map, arith, if◌then◌else◌,
  Bool-cases, inl, inr,
}
use bongsu.Prelude.Int.{ℤ}
use bongsu.Text.{Bytes, equal, equal_iff, equal_self, equal_sym, one_of}
use bongsu.Text.Distinct.{all_distinct, lacks_name}
use bongsu.Scanner.{Package}
use bongsu.Scanner.Lang.Walk.{
  Json, Tree, walk, package_key, dedupe_from, dedupe_lang_packages, or_slash, depth_or_default,
  scan_language_packages,
}

-- The first package of a key.
abbrev pub first_with : Bytes → List Package → Option Package
first_with k [] = none
first_with k (p ∷ ps) =
    let rest = first_with k ps in if equal (package_key p) k then some p else rest

one_of-same :
    (a b : Bytes) (options : List Bytes) → equal a b ≡ true → one_of a options ≡ one_of b options
one_of-same a b options h = λ i. one_of ((equal_iff a b).0 h i) options

dedupe_from-lacks :
    (seen : List Bytes) (ps : List Package) (k : Bytes)
    → one_of k seen ≡ true
    → lacks_name k (map package_key (dedupe_from seen ps)) ≡ true
unfolding dedupe_from one_of
dedupe_from-lacks seen [] k h = refl
dedupe_from-lacks seen (p ∷ ps) k h = elim (Bool-cases (one_of (package_key p) seen)) [
  | inl old ↦ rw old (dedupe_from-lacks seen ps k h)
  | inr new ↦
      let later : one_of k (package_key p ∷ seen) ≡ true = ground (arith, h) in
      let other : equal (package_key p) k ≡ false =
        ground (arith, one_of-same (package_key p) k seen, h, new) in
      rw new rw other (dedupe_from-lacks (package_key p ∷ seen) ps k later)
]

dedupe_from-distinct :
    (seen : List Bytes) (ps : List Package)
    → all_distinct (map package_key (dedupe_from seen ps)) ≡ true
unfolding dedupe_from one_of
dedupe_from-distinct seen [] = refl
dedupe_from-distinct seen (p ∷ ps) = elim (Bool-cases (one_of (package_key p) seen)) [
  | inl old ↦ rw old (dedupe_from-distinct seen ps)
  | inr new ↦
      let here : one_of (package_key p) (package_key p ∷ seen) ≡ true =
        rw (equal_self (package_key p)) refl in
      rw new rw (dedupe_from-lacks (package_key p ∷ seen) ps (package_key p) here)
        (dedupe_from-distinct (package_key p ∷ seen) ps)
]

dedupe_from-first_with :
    (seen : List Bytes) (ps : List Package) (k : Bytes)
    → one_of k seen ≡ false
    → first_with k (dedupe_from seen ps) ≡ first_with k ps
unfolding dedupe_from one_of
dedupe_from-first_with seen [] k h = refl
dedupe_from-first_with seen (p ∷ ps) k h = elim (Bool-cases (equal (package_key p) k)) [
  | inl is ↦
      let new : one_of (package_key p) seen ≡ false = one_of-same (package_key p) k seen is ∙ h in
      rw new rw is refl
  | inr other ↦ elim (Bool-cases (one_of (package_key p) seen)) [
    | inl old ↦ rw (old, other) (dedupe_from-first_with seen ps k h)
    | inr new ↦
        let apart : one_of k (package_key p ∷ seen) ≡ false =
          rw (equal_sym k (package_key p) ∙ other) h in
        rw (new, other) (dedupe_from-first_with (package_key p ∷ seen) ps k apart)
  ]
]

-- The packages of `ScanLanguagePackages` have keys (the ecosystem, the name in lower case, the
-- version) that differ from each other, and for every key the package is the first one of those
-- that the walk finds with this key; there is none exactly when the walk finds none.
pub scan_language_packages-distinct :
    (json : Json) (root root_name : Bytes) (max_depth : ℤ) (tree : Tree)
    → let found = scan_language_packages json root root_name max_depth tree in
      let all =
        walk json (or_slash root) (depth_or_default max_depth) (or_slash root) root_name tree in
      (all_distinct (map package_key found) ≡ true)
      × ((k : Bytes) → first_with k found ≡ first_with k all)
unfolding scan_language_packages dedupe_lang_packages one_of
scan_language_packages-distinct json root root_name max_depth tree =
    let all =
      walk json (or_slash root) (depth_or_default max_depth) (or_slash root) root_name tree in
    (dedupe_from-distinct [] all, λ k. dedupe_from-first_with [] all k refl)
