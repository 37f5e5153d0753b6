-- ===== src/Vercmp/Generic/Release.antt =====
-- The release segments of a parsed version as numbers.
use bongsu.Prelude.{
  ℕ, compare, Ordering, ◌≡◌, refl, Bool, true, some, List, [], ◌∷◌, map, arith, Bool-cases, inl,
  inr, all_of, all_of-take_while, and_split,
}
use bongsu.Prelude.Order.{first_nonzero, compare_padded}
use bongsu.Text.{Bytes, codes, is_empty, trim_space}
use bongsu.Vercmp.Chars.{is_digit}
use bongsu.Vercmp.Digits.{value, compare_num_str_lem}
use bongsu.Vercmp.Generic.{
  GenericVersion, all_digits, split_dots, split_segments, split_release_and_qualifier, strip_v,
  cut_at, underscores_to_dots, parse_stripped, parse_generic, compare_release, compare_qualifiers,
  compare_parsed, compare_generic,
}

abbrev pub all_numbers : List Bytes → Bool
all_numbers = all_of (all_of is_digit)

split_segments-all_numbers : (segs : List Bytes) → all_numbers (split_segments segs).0 ≡ true
unfolding split_segments all_digits
split_segments-all_numbers [] = refl
split_segments-all_numbers (seg ∷ segs) =
    ground (arith, split_segments-all_numbers segs, all_of-take_while is_digit seg)

split_release-all_numbers : (v : Bytes) → all_numbers (split_release_and_qualifier v).0 ≡ true
unfolding split_release_and_qualifier
split_release-all_numbers v = elim (Bool-cases (is_empty v)) [
  | inl e ↦ rw (e, split_release_and_qualifier)
  | inr n ↦ rw (n, split_release_and_qualifier) (split_segments-all_numbers (split_dots v))
]

parse_stripped-all_numbers :
    (v : Bytes) {p : GenericVersion} → parse_stripped v ≡ some p → all_numbers p.release ≡ true
unfolding parse_stripped
parse_stripped-all_numbers v {p} h =
    ground
      (arith, split_release-all_numbers (cut_at b'-' (underscores_to_dots (cut_at b'+' v).0)).0)

pub parse_generic-all_numbers :
    (v : Bytes) {p : GenericVersion} → parse_generic v ≡ some p → all_numbers p.release ≡ true
unfolding parse_generic
parse_generic-all_numbers v {p} h = ground (
  arith,
  λ (h : parse_stripped (strip_v (trim_space v)) ≡ some p).
      parse_stripped-all_numbers (strip_v (trim_space v)) h,
)

abbrev pub compare_numbers : List ℕ → List ℕ → Ordering
compare_numbers = compare_padded compare 0

zero_digit : all_of is_digit (codes "0") ≡ true
unfolding is_digit
zero_digit = refl

compare_release_lem :
    (a b : List Bytes)
    → all_numbers a ≡ true
    → all_numbers b ≡ true
    → compare_release a b ≡ compare_numbers (map value a) (map value b)
compare_release_lem [] [] p q = refl
compare_release_lem [] (y ∷ b) p q =
    let (qy, qb) = and_split (all_of is_digit y) q in
    rw (compare_num_str_lem (codes "0") y zero_digit qy, compare_release_lem [] b p qb)
compare_release_lem (x ∷ a) [] p q =
    let (px, pa) = and_split (all_of is_digit x) p in
    rw (compare_num_str_lem x (codes "0") px zero_digit, compare_release_lem a [] pa q)
compare_release_lem (x ∷ a) (y ∷ b) p q =
    let (px, pa) = and_split (all_of is_digit x) p in
    let (qy, qb) = and_split (all_of is_digit y) q in
    rw (compare_num_str_lem x y px qy, compare_release_lem a b pa qb)

-- Two versions that parse are compared by `compareGeneric` by the numbers of their releases, of
-- any size and filled up with 0, then by their qualifiers.
pub compare_generic_lem :
    (a b : Bytes) {pa pb : GenericVersion}
    → parse_generic a ≡ some pa
    → parse_generic b ≡ some pb
    → compare_generic a b
      ≡ some (
          first_nonzero
            (compare_numbers (map value pa.release) (map value pb.release))
            (compare_qualifiers pa.pre pb.pre))
unfolding compare_generic compare_parsed
compare_generic_lem a b {pa} {pb} x y =
    rw (x, compare_generic)
      (rw y (
        rw (
          compare_release_lem pa.release pb.release (parse_generic-all_numbers a x)
            (parse_generic-all_numbers b y))))
