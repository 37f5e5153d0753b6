-- ===== src/Classify/Candidate/Affected.antt =====
-- Whether a product has a fix, and covers a version: the fixes by what the texts are, without the
-- loops that collect them.
use bongsu.Prelude.{
  Ordering, ◌≡◌, refl, Bool, true, false, not, ◌&&◌, ◌||◌, Option, some, List, [], ◌∷◌, ◌++◌, map,
  arith, any_of, all_of, Bool-cases, inl, inr,
}
use bongsu.Prelude.Sort.{filter}
use bongsu.Text.{Bytes, equal, is_empty, one_of, trim_space}
use bongsu.Classify.{AffectedRange, AffectedProduct}
use bongsu.Classify.Candidate.{has_no_fix}
use bongsu.Classify.Fixed.{
  is_safe_fixed_version, unique_from, unique_fixed_versions, range_fixes, fixed_versions,
}
use bongsu.Classify.Range.{
  compare_versions, version_in_range, below_only_fix, in_some_range, version_is_affected,
}

pub equal_sym : (a b : Bytes) → equal a b ≡ equal b a
unfolding equal
equal_sym [] [] = refl
equal_sym [] (c ∷ b) = refl
equal_sym (c ∷ a) [] = refl
equal_sym (c ∷ a) (d ∷ b) = ground (arith, equal_sym a b)

-- The safe versions among texts, in their order and with repetitions.
abbrev pub safe_versions : List Bytes → List Bytes
safe_versions ss = filter is_safe_fixed_version (map trim_space ss)

-- The product names a safe fix, in its list or in an event of a range.
abbrev pub names_fix : AffectedProduct → Bool
names_fix p =
    any_of is_safe_fixed_version (map trim_space p.fixed)
    || any_of is_safe_fixed_version (map trim_space (range_fixes p.ranges))

abbrev pub is_smaller : Option Ordering → Bool
is_smaller (some Ordering.lt) = true
is_smaller _ = false

-- All the safe versions are one text, and the installed version is below it.
abbrev pub is_below_one : Bytes → Bytes → List Bytes → Bool
is_below_one eco installed [] = false
is_below_one eco installed (f ∷ fs) =
    is_smaller (compare_versions eco installed f) && all_of (equal f) fs

abbrev pub has_no_range {ℓ} : {A : Type ℓ} → List A → Bool
has_no_range [] = true
has_no_range (a ∷ more) = false

-- The version is in one of the ranges, or without ranges below the only fix of the list.
abbrev pub covers : Bytes → Bytes → AffectedProduct → Bool
covers eco installed p =
    not (is_empty installed)
    && (any_of (λ (r : AffectedRange). version_in_range eco installed r.events) p.ranges
        || (has_no_range p.ranges && is_below_one eco installed (safe_versions p.fixed)))

has_no_fix-unique_from :
    (ss : List Bytes)
    → has_no_fix (unique_from [] ss) ≡ not (any_of is_safe_fixed_version (map trim_space ss))
unfolding unique_from one_of
has_no_fix-unique_from [] = refl
has_no_fix-unique_from (s ∷ ss) = ground (arith, has_no_fix-unique_from ss)

has_no_fix-append : (xs ys : List Bytes) → has_no_fix (xs ++ ys) ≡ (has_no_fix xs && has_no_fix ys)
has_no_fix-append [] ys = refl
has_no_fix-append (x ∷ xs) ys = refl

has_no_fix-none : (xs : List Bytes) → has_no_fix xs ≡ true → xs ≡ []
has_no_fix-none [] h = refl
has_no_fix-none (x ∷ xs) h = absurd (cc)

pub fixed_versions-names_fix :
    (p : AffectedProduct) → not (has_no_fix (fixed_versions p)) ≡ names_fix p
unfolding fixed_versions unique_fixed_versions
fixed_versions-names_fix p =
    let out = unique_from [] p.fixed in
    elim (Bool-cases (has_no_fix out)) [
      | inl none_there ↦
          rw (has_no_fix-none out none_there, has_no_fix-unique_from (range_fixes p.ranges))
            (ground (arith, has_no_fix-unique_from p.fixed, none_there))
      | inr there ↦
          rw (has_no_fix-append out (unique_from out (range_fixes p.ranges)))
            (ground (arith, has_no_fix-unique_from p.fixed, there))
    ]

-- Behind a first fix, no other one is collected exactly when all the others are the same.
has_no_fix-after :
    (f : Bytes) (ss : List Bytes)
    → has_no_fix (unique_from (f ∷ []) ss) ≡ all_of (equal f) (safe_versions ss)
unfolding unique_from one_of filter
has_no_fix-after f [] = refl
has_no_fix-after f (s ∷ ss) = ground (arith, has_no_fix-after f ss, equal_sym f (trim_space s))

below_only_fix-cons :
    (eco installed f : Bytes) (fs : List Bytes)
    → below_only_fix eco installed (f ∷ fs)
      ≡ (is_smaller (compare_versions eco installed f) && has_no_fix fs)
below_only_fix-cons eco installed f [] = ground arith
below_only_fix-cons eco installed f (g ∷ fs) = ground arith

below_only_fix_lem :
    (eco installed : Bytes) (ss : List Bytes)
    → below_only_fix eco installed (unique_from [] ss)
      ≡ is_below_one eco installed (safe_versions ss)
unfolding unique_from one_of filter
below_only_fix_lem eco installed [] = refl
below_only_fix_lem eco installed (s ∷ ss) =
    let f = trim_space s in
    elim (Bool-cases (is_safe_fixed_version f)) [
      | inl safe ↦
          rw (safe, below_only_fix-cons eco installed f (unique_from (f ∷ []) ss))
            (rw (has_no_fix-after f ss) refl)
      | inr unsafe ↦ rw unsafe (below_only_fix_lem eco installed ss)
    ]

or_else_none :
    (eco installed : Bytes) (rs : List AffectedRange) (fix : Bool)
    → elim rs [ [] ↦ fix | r ∷ more ↦ in_some_range eco installed (r ∷ more) ] ≡ (
        any_of (λ (r : AffectedRange). version_in_range eco installed r.events) rs
        || (has_no_range rs && fix))
or_else_none eco installed [] fix = refl
or_else_none eco installed (r ∷ rs) fix = ground arith

pub version_is_affected_lem :
    (eco installed : Bytes) (p : AffectedProduct)
    → version_is_affected eco installed p ≡ covers eco installed p
unfolding version_is_affected unique_fixed_versions
version_is_affected_lem eco installed p =
    rw (or_else_none eco installed p.ranges, below_only_fix_lem eco installed p.fixed)
      (ground arith)
