-- ===== src/Vercmp/Tests.antt =====
-- Runs of the comparators, and the theorems about them at concrete versions.
use mathlib.Core.Option
use bongsu.Prelude.{◌%◌, Ordering, ◌≡◌, refl, some, arith, [], ◌∷◌, take_while, drop_while}
use bongsu.Prelude.Order.{first_nonzero, opposite}
use bongsu.Text.{Bytes, codes, trim_space, equal}
use bongsu.Vercmp.{family, compare, compare_by}
use bongsu.Vercmp.Apk.{apk_valid, compare_alpine}
use bongsu.Vercmp.Apk.Scanner.{
  next, next_by, next_number, next_letter, next_suffix, next_suffix_no, next_revision, after_number,
  after_letter, after_suffix_no, is_lower_alpha, scan_suffix_name, atoi_from, sign_of_difference,
  word,
}
use bongsu.Vercmp.Apk.Laws.{IsApkVersion, compare_alpine_lem}
use bongsu.Vercmp.Apk.Order.{compare_apk_tokens}
use bongsu.Vercmp.Apk.Overflow.{IsNumber, compare_alpine-IsNumber}
use bongsu.Vercmp.Apk.Scan.{apk_tokens, apk_tokens_loop}
use bongsu.Vercmp.Chars.{is_digit}
use bongsu.Vercmp.Deb.{compare_debian, verrevcmp}
use bongsu.Vercmp.Deb.Parts.{parts, compare_parts}
use bongsu.Vercmp.Deb.Refine.{verrevcmp_lem}
use bongsu.Vercmp.Digits.{strip_leading_zeros, strcmp, value, compare_num_str}
use bongsu.Vercmp.Generic.{
  parse_generic, compare_generic, compare_parsed, compare_pre, release_tier, compare_names,
  compare_pre_ident, compare_qualifiers, all_digits, qualifier_rank, split_segments,
}
use bongsu.Vercmp.Generic.Release.{compare_numbers, compare_generic_lem}
use bongsu.Vercmp.Laws.{compare-flip, compare-chain}
use bongsu.Vercmp.Rpm.{compare_rpm, rpmvercmp}
use bongsu.Vercmp.Rpm.Refine.{rpmvercmp_lem}
use bongsu.Vercmp.Rpm.Tokens.{tokens, compare_tokens}

abbrev v1_rc : Bytes
v1_rc = codes "1.0~rc1"

abbrev v1 : Bytes
v1 = codes "1.0"

abbrev v1_rev : Bytes
v1_rev = codes "1.0-2"

debian_runs :
    (compare_debian v1_rc v1 ≡ some Ordering.lt)
    × (compare_debian (codes "1:1.0-1") (codes "2.0-1") ≡ some Ordering.gt)
    × (compare_debian (codes "1.010-2") (codes "1.10-2") ≡ some Ordering.eq)
unfolding compare_debian verrevcmp
debian_runs = (refl, refl, refl)

rpm_runs :
    (compare_rpm v1_rc v1 ≡ some Ordering.lt)
    × (compare_rpm (codes "1.0^git1") (codes "1.0.1") ≡ some Ordering.lt)
    × (compare_rpm (codes "2:1.0-1") (codes "1.5a-3.el8") ≡ some Ordering.gt)
unfolding compare_rpm rpmvercmp
rpm_runs = (refl, refl, refl)

verrevcmp_example : verrevcmp v1_rc v1 ≡ compare_parts (parts v1_rc) (parts v1)
verrevcmp_example = verrevcmp_lem v1_rc v1 refl refl

rpmvercmp_example : rpmvercmp v1_rc v1 ≡ compare_tokens (tokens v1_rc) (tokens v1)
rpmvercmp_example = rpmvercmp_lem v1_rc v1

abbrev apk_old : Bytes
apk_old = codes "1.2.3_rc2-r1"

abbrev apk_new : Bytes
apk_new = codes "1.2.03a_p1"

-- What a run of the scanner computes with.
opened : Unit {0}
unfolding apk_valid apk_tokens apk_tokens_loop next next_by next_number next_letter next_suffix
    next_suffix_no next_revision after_number after_letter after_suffix_no is_lower_alpha
    scan_suffix_name atoi_from take_while drop_while is_digit
opened = tt

apk_old-IsApkVersion : IsApkVersion apk_old
unfolding opened
apk_old-IsApkVersion = record { non_empty = refl; valid = refl; small = refl }

apk_new-IsApkVersion : IsApkVersion apk_new
unfolding opened
apk_new-IsApkVersion = record { non_empty = refl; valid = refl; small = refl }

compare_alpine_example :
    compare_alpine apk_old apk_new
    ≡ some (compare_apk_tokens (apk_tokens apk_old) (apk_tokens apk_new))
compare_alpine_example =
    compare_alpine_lem apk_old apk_new apk_old-IsApkVersion apk_new-IsApkVersion

abbrev two_to_64 : Bytes
two_to_64 = codes "18446744073709551616"

abbrev one : Bytes
one = codes "1"

two_to_64-IsNumber : IsNumber two_to_64
unfolding is_digit
two_to_64-IsNumber = record { non_empty = refl; digits = refl; no_zero = refl }

one-IsNumber : IsNumber one
unfolding is_digit
one-IsNumber = record { non_empty = refl; digits = refl; no_zero = refl }

compare_alpine-IsNumber_example :
    compare_alpine two_to_64 one
    ≡ some (sign_of_difference (value two_to_64 % word) (value one % word))
compare_alpine-IsNumber_example =
    compare_alpine-IsNumber two_to_64 one two_to_64-IsNumber one-IsNumber

-- 2 ^ 64 is found below 1.
overflow_run : compare_alpine two_to_64 one ≡ some Ordering.lt
unfolding sign_of_difference
overflow_run = compare_alpine-IsNumber two_to_64 one two_to_64-IsNumber one-IsNumber

-- The choice of the family, and the length of a text, as a run computes them.
debian_opened : Unit {0}
unfolding family compare compare_by trim_space compare_debian verrevcmp
debian_opened = tt

compare-flip_example :
    compare (codes "Ubuntu") v1 v1_rc ≡ Option.map opposite (compare (codes "Ubuntu") v1_rc v1)
unfolding debian_opened
compare-flip_example = compare-flip (codes "Ubuntu") v1_rc v1 refl refl

compare-chain_example : compare (codes "debian") v1_rc v1_rev ≡ some Ordering.lt
unfolding debian_opened
compare-chain_example =
    compare-chain (codes "debian") v1_rc v1 v1_rev tt refl refl refl refl refl (grind arith)
      (grind arith)

generic_opened : Unit {0}
unfolding trim_space parse_generic compare_generic compare_parsed compare_num_str
    strip_leading_zeros strcmp compare_qualifiers release_tier compare_pre compare_pre_ident
    compare_names all_digits qualifier_rank is_digit equal split_segments take_while drop_while
generic_opened = tt

compare_generic_lem_example :
    compare_generic (codes "v1.10") (codes "1.9-rc.1")
    ≡ some (
        first_nonzero
          (compare_numbers (1 ∷ 10 ∷ []) (1 ∷ 9 ∷ []))
          (compare_qualifiers [] (codes "rc" ∷ codes "1" ∷ [])))
unfolding generic_opened
compare_generic_lem_example = compare_generic_lem (codes "v1.10") (codes "1.9-rc.1") refl refl

-- The cycle in whole versions.
generic_runs :
    (compare_generic (codes "1.0.0-dev") (codes "1.0.0-alpha") ≡ some Ordering.lt)
    × (compare_generic (codes "1.0.0-alpha") (codes "1.0.0-canary") ≡ some Ordering.lt)
    × (compare_generic (codes "1.0.0-canary") (codes "1.0.0-dev") ≡ some Ordering.lt)
unfolding generic_opened
generic_runs = (refl, refl, refl)
