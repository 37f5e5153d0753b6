-- ===== src/Classify/Fixed.antt =====
-- internal/server/db/classify.go: the fixed versions that an advisory names. The four regular
-- expressions of db.go are read as the tests that they are on ASCII text.
use bongsu.Prelude.{
  ◌≡◌, refl, sym, ap, ◌∙◌, Bool, true, false, not, ◌&&◌, ◌||◌, List, [], ◌∷◌, ◌++◌, map, arith,
  ◌==◌, if◌then◌else◌, length, all_of, any_of, and_split,
}
use bongsu.Text.{
  Bytes, codes, within, equal, equal_iff, equal_self, is_empty, trim_space, to_lower, has_prefix,
  one_of,
}
use bongsu.Vercmp.Chars.{is_digit}
use bongsu.Classify.{AffectedRangeEvent, AffectedRange, AffectedProduct}

abbrev is_hex : Bytes → Bool
is_hex = all_of (λ c. is_digit c || within b'a' b'f' c)

-- `hashOnlyFixedVersionRe`.
unfoldable pub hash_only : Bytes → Bool
unfolding to_lower is_digit
hash_only version =
    let n = length version in (n == 32 || n == 40 || n == 64) && is_hex (to_lower version)

-- `versionLikeFixedVersionRe`.
unfoldable pub version_like : Bytes → Bool
unfolding is_digit
version_like version = any_of is_digit version

-- `urlLikeFixedVersionRe`.
unfoldable pub url_like : Bytes → Bool
unfolding to_lower has_prefix
url_like version =
    let v = to_lower version in
    any_of (has_prefix v) (
      codes "http://"
      ∷ codes "https://"
      ∷ codes "git://"
      ∷ codes "ssh://"
      ∷ codes "git+"
      ∷ codes "pkg:"
      ∷ [])
    || any_of (λ c. c == b'/') v

-- `branchLikeFixedVersionRe`.
unfoldable pub branch_like : Bytes → Bool
unfolding to_lower one_of
branch_like version = one_of (to_lower version) (
    codes "main"
    ∷ codes "master"
    ∷ codes "trunk"
    ∷ codes "head"
    ∷ codes "latest"
    ∷ codes "stable"
    ∷ codes "unstable"
    ∷ codes "develop"
    ∷ codes "development"
    ∷ [])

unfoldable pub is_safe_fixed_version : Bytes → Bool
unfolding trim_space equal hash_only version_like url_like branch_like
is_safe_fixed_version s =
    let version = trim_space s in
    if is_empty version
    then false
    else if equal version (codes "0")
    then false
    else if not (version_like version)
    then false
    else if hash_only version
    then false
    else if url_like version
    then false
    else not (branch_like version)

-- The loop of `uniqueFixedVersions` and of `fixedVersions`: what it appends, from the keys of `seen`.
unfoldable pub unique_from : List Bytes → List Bytes → List Bytes
unique_from seen [] = []
unique_from seen (s ∷ ss) =
    let fixed = trim_space s in
    let skipped = unique_from seen ss in
    let appended = fixed ∷ unique_from (fixed ∷ seen) ss in
    if not (is_safe_fixed_version fixed) || one_of fixed seen then skipped else appended

unfoldable pub unique_fixed_versions : List Bytes → List Bytes
unfolding unique_from is_safe_fixed_version one_of
unique_fixed_versions ss = unique_from [] ss

-- The texts `ev.Fixed`, in the order of the two loops.
unfoldable pub range_fixes : List AffectedRange → List Bytes
range_fixes [] = []
range_fixes (r ∷ rs) = map (λ (ev : AffectedRangeEvent). ev.fixed) r.events ++ range_fixes rs

unfoldable pub fixed_versions : AffectedProduct → List Bytes
unfolding unique_fixed_versions range_fixes
fixed_versions p =
    let out = unique_fixed_versions p.fixed in out ++ unique_from out (range_fixes p.ranges)

unfoldable pub has_safe_fixed_evidence : AffectedProduct → Bool
unfolding unique_fixed_versions range_fixes
has_safe_fixed_evidence p =
    if length (unique_fixed_versions p.fixed) == 1
    then true
    else any_of (λ s. is_safe_fixed_version (trim_space s)) (range_fixes p.ranges)

-- What the loop appends: the safe versions of the list that have not been seen.
pub one_of-unique_from :
    (v : Bytes) (seen ss : List Bytes)
    → one_of v (unique_from seen ss)
      ≡ (is_safe_fixed_version v && one_of v (map trim_space ss) && not (one_of v seen))
unfolding unique_from one_of
one_of-unique_from v seen [] = ground arith
one_of-unique_from v seen (s ∷ ss) =
    let fixed = trim_space s in
    ground (
      arith,
      one_of-unique_from v seen ss,
      one_of-unique_from v (fixed ∷ seen) ss,
      λ (e : equal v fixed ≡ true). ap is_safe_fixed_version ((equal_iff v fixed).0 e),
      λ (e : equal v fixed ≡ true). ap (λ t. one_of t seen) ((equal_iff v fixed).0 e),
    )

one_of-append :
    (v : Bytes) (ss ts : List Bytes) → one_of v (ss ++ ts) ≡ (one_of v ss || one_of v ts)
unfolding one_of
one_of-append v [] ts = refl
one_of-append v (s ∷ ss) ts = ground (arith, one_of-append v ss ts)

either_list :
    (safe a b : Bool)
    → ((safe && a && not false) || (safe && b && not (safe && a && not false))) ≡ (safe && (a || b))
either_list safe a b = ground arith

-- A version is among `fixedVersions` of a product exactly when it is safe and, trimmed, is in the
-- list of fixed versions or the fix of an event of a range.
pub one_of-fixed_versions :
    (v : Bytes) (p : AffectedProduct)
    → one_of v (fixed_versions p) ≡ (
        is_safe_fixed_version v
        && (one_of v (map trim_space p.fixed) || one_of v (map trim_space (range_fixes p.ranges))))
unfolding fixed_versions unique_fixed_versions one_of
one_of-fixed_versions v p =
    let out = unique_from [] p.fixed in
    rw
      (
        one_of-append v out (unique_from out (range_fixes p.ranges)),
        one_of-unique_from v out (range_fixes p.ranges),
        one_of-unique_from v [] p.fixed,
      )
      (either_list (is_safe_fixed_version v) (one_of v (map trim_space p.fixed)) _)

-- No text stands twice in the list.
abbrev pub distinct : List Bytes → Bool
distinct [] = true
distinct (s ∷ ss) = not (one_of s ss) && distinct ss

distinct-unique_from : (seen ss : List Bytes) → distinct (unique_from seen ss) ≡ true
unfolding unique_from one_of
distinct-unique_from seen [] = refl
distinct-unique_from seen (s ∷ ss) =
    let fixed = trim_space s in
    ground (
      arith,
      distinct-unique_from seen ss,
      distinct-unique_from (fixed ∷ seen) ss,
      one_of-unique_from fixed (fixed ∷ seen) ss,
      equal_self fixed,
    )

distinct-append :
    (ss ts : List Bytes)
    → distinct ss ≡ true
    → distinct ts ≡ true
    → ((v : Bytes) → one_of v ts ≡ true → one_of v ss ≡ false)
    → distinct (ss ++ ts) ≡ true
unfolding one_of
distinct-append [] ts d e apart = e
distinct-append (s ∷ ss) ts d e apart =
    let (ds, dss) = and_split (not (one_of s ss)) d in
    let rest = distinct-append ss ts dss e (λ v h. ground (arith, apart v h)) in
    ground (arith, rest, ds, one_of-append s ss ts, apart s, equal_self s)

last_false : (a b c : Bool) → (a && b && not c) ≡ true → c ≡ false
last_false a b c h = ground arith

unseen :
    (v : Bytes) (seen ss : List Bytes)
    → one_of v (unique_from seen ss) ≡ true
    → one_of v seen ≡ false
unseen v seen ss h =
    last_false (is_safe_fixed_version v) (one_of v (map trim_space ss)) (one_of v seen)
      (sym (one_of-unique_from v seen ss) ∙ h)

-- `fixedVersions` names no version twice, across the list and the ranges.
pub fixed_versions-distinct : (p : AffectedProduct) → distinct (fixed_versions p) ≡ true
unfolding fixed_versions unique_fixed_versions
fixed_versions-distinct p =
    let out = unique_from [] p.fixed in
    distinct-append out (unique_from out (range_fixes p.ranges)) (distinct-unique_from [] p.fixed)
      (distinct-unique_from out (range_fixes p.ranges))
      (λ v h. unseen v out (range_fixes p.ranges) h)
