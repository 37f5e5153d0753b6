-- ===== src/Vercmp/Generic.antt =====
-- internal/server/vercmp/generic.go: `compareGeneric`, the comparator of the language ecosystems.
pub mod Release
pub mod Laws
pub mod Cycle
use bongsu.Prelude.{
  ℕ, zero, suc, compare, Ordering, Bool, true, false, not, ◌&&◌, ◌||◌, Option, none, some, List, [],
  ◌∷◌, ◌++◌, map, ◌==◌, if◌then◌else◌, length, take, drop, take_while, drop_while, all_of,
}
use bongsu.Prelude.Int.{ℤ, pos, negsuc, eq_ℤ, compare_ℤ}
use bongsu.Prelude.Order.{first_nonzero, compare_padded}
use bongsu.Text.{Bytes, codes, is_empty, trim_space, to_lower, one_of}
use bongsu.Vercmp.Chars.{is_digit, index_byte}
use bongsu.Vercmp.Digits.{compare_num_str, strcmp}

-- `strings.Split(s, ".")`.
unfoldable pub split_dots : Bytes → List Bytes
split_dots [] = [] ∷ []
split_dots (c ∷ s) = elim (split_dots s) [
  | [] ↦ []
  | seg ∷ segs ↦ if c == b'.' then [] ∷ seg ∷ segs else (c ∷ seg) ∷ segs
]

-- `strings.Join(segs, ".")`.
unfoldable pub join_dots : List Bytes → Bytes
join_dots [] = []
join_dots (seg ∷ []) = seg
join_dots (seg ∷ next ∷ segs) = seg ++ b'.' ∷ join_dots (next ∷ segs)

unfoldable pub all_digits : Bytes → Bool
all_digits s = not (is_empty s) && all_of is_digit s

-- `leadingDigits`.
abbrev pub leading_digits : Bytes → Bytes × Bytes
leading_digits s = (take_while is_digit s, drop_while is_digit s)

abbrev same_bool : Bool → Bool → Bool
same_bool true b = b
same_bool false b = not b

-- The loop of `splitAlphaNum`: `run` is `s[start:i]`.
unfoldable pub split_alpha_num_from : Bool → Bytes → Bytes → List Bytes
split_alpha_num_from prev_digit run [] = run ∷ []
split_alpha_num_from prev_digit run (c ∷ s) =
    let longer = split_alpha_num_from prev_digit (run ++ c ∷ []) s in
    let cut = run ∷ split_alpha_num_from (is_digit c) (c ∷ []) s in
    if same_bool (is_digit c) prev_digit then longer else cut

-- `splitAlphaNum`; the code never calls it on an empty string, where it would panic.
unfoldable pub split_alpha_num : Bytes → List Bytes
unfolding split_alpha_num_from
split_alpha_num [] = []
split_alpha_num (c ∷ s) = split_alpha_num_from (is_digit c) (c ∷ []) s

unfoldable pub split_parts : List Bytes → List Bytes
unfolding split_alpha_num
split_parts [] = []
split_parts (part ∷ parts) =
    let rest = split_parts parts in if is_empty part then rest else split_alpha_num part ++ rest

unfoldable pub split_pre_identifiers : Bytes → List Bytes
unfolding split_parts split_dots
split_pre_identifiers s = if is_empty s then [] else split_parts (split_dots s)

-- The loop of `splitReleaseAndQualifier`: the release and the qualifier of the segments from here.
unfoldable pub split_segments : List Bytes → List Bytes × List Bytes
split_segments [] = ([], [])
split_segments (seg ∷ segs) =
    let rest = split_segments segs in
    let (num, qualifier) = leading_digits seg in
    let tail = if is_empty qualifier then segs else qualifier ∷ segs in
    if is_empty seg
    then rest
    else if all_digits seg
    then (seg ∷ rest.0, rest.1)
    else (if is_empty num then [] else num ∷ [], split_pre_identifiers (join_dots tail))

unfoldable pub split_release_and_qualifier : Bytes → List Bytes × List Bytes
unfolding split_segments
split_release_and_qualifier v = if is_empty v then ([], []) else split_segments (split_dots v)

pub record GenericVersion : Type 0 where
  pub release : List Bytes
  pub pre : List Bytes

-- `v[1:]` where `v` begins with 'v' or 'V'.
unfoldable pub strip_v : Bytes → Bytes
strip_v [] = []
strip_v (c ∷ s) = if c == b'v' || c == b'V' then s else c ∷ s

-- `v[:i]` at the first byte `b`, and `v[i+1:]`.
unfoldable pub cut_at : ℕ → Bytes → Bytes × Bytes
unfolding index_byte
cut_at b v = elim (index_byte v b) [ none ↦ (v, []) | some i ↦ (take i v, drop (suc i) v) ]

-- `strings.ReplaceAll(v, "_", ".")`.
unfoldable pub underscores_to_dots : Bytes → Bytes
underscores_to_dots v = map (λ c. if c == b'_' then b'.' else c) v

-- `len(release) == 0`.
abbrev pub no_segments : List Bytes → Bool
no_segments [] = true
no_segments (seg ∷ segs) = false

-- `parseGeneric` from the stripped version on.
unfoldable pub parse_stripped : Bytes → Option GenericVersion
unfolding cut_at underscores_to_dots split_release_and_qualifier split_pre_identifiers
parse_stripped v =
    let (head, pre_str) = cut_at b'-' (underscores_to_dots (cut_at b'+' v).0) in
    let (release, embedded_pre) = split_release_and_qualifier head in
    let pre = embedded_pre ++ (if is_empty pre_str then [] else split_pre_identifiers pre_str) in
    if no_segments release then none else some (record { release = release; pre = pre })

unfoldable pub parse_generic : Bytes → Option GenericVersion
unfolding trim_space strip_v parse_stripped
parse_generic s = let v = trim_space s in if is_empty v then none else parse_stripped (strip_v v)

-- `none` is `ok == false`.
unfoldable pub rank_of_name : Bytes → Option ℤ
unfolding one_of
rank_of_name s =
    if one_of s (codes "dev" ∷ [])
    then some (negsuc 4)
    else if one_of s (codes "alpha" ∷ codes "a" ∷ [])
    then some (negsuc 3)
    else if one_of s (codes "beta" ∷ codes "b" ∷ [])
    then some (negsuc 2)
    else if one_of s (codes "pre" ∷ codes "preview" ∷ codes "c" ∷ [])
    then some (negsuc 1)
    else if one_of s (codes "rc" ∷ [])
    then some (negsuc 0)
    else if one_of s (codes "post" ∷ codes "rev" ∷ codes "r" ∷ [])
    then some (pos 1)
    else none

unfoldable pub qualifier_rank : Bytes → Option ℤ
unfolding rank_of_name to_lower
qualifier_rank s = rank_of_name (to_lower s)

unfoldable pub release_tier : List Bytes → ℤ
unfolding qualifier_rank
release_tier [] = pos 0
release_tier (name ∷ names) = elim (qualifier_rank name) [
  | none ↦ negsuc 0
  | some (pos (suc n)) ↦ pos 1
  | some _ ↦ negsuc 0
]

-- The shorter release is filled up with "0".
abbrev pub compare_release : List Bytes → List Bytes → Ordering
compare_release = compare_padded compare_num_str (codes "0")

-- Two identifiers that are not both numbers and not one of them: by rank, else as lower case text.
unfoldable pub compare_names : Bytes → Bytes → Ordering
compare_names a b =
    let by_text = strcmp (to_lower a) (to_lower b) in
    elim (qualifier_rank a) [
      | none ↦ by_text
      | some ra ↦ elim (qualifier_rank b) [ none ↦ by_text | some rb ↦ compare_ℤ ra rb ]
    ]

unfoldable pub compare_pre_ident : Bytes → Bytes → Ordering
compare_pre_ident a b =
    if all_digits a && all_digits b
    then compare_num_str a b
    else if all_digits a
    then Ordering.lt
    else if all_digits b
    then Ordering.gt
    else compare_names a b

unfoldable pub compare_pre : List Bytes → List Bytes → Ordering
compare_pre [] [] = Ordering.eq
compare_pre [] (y ∷ b) = Ordering.lt
compare_pre (x ∷ a) [] = Ordering.gt
compare_pre (x ∷ a) (y ∷ b) = first_nonzero (compare_pre_ident x y) (compare_pre a b)

-- What follows the comparison of the releases, on the two qualifiers.
unfoldable pub compare_qualifiers : List Bytes → List Bytes → Ordering
compare_qualifiers a b =
    let ta = release_tier a in
    let tb = release_tier b in
    if not (eq_ℤ ta tb)
    then compare_ℤ ta tb
    else if eq_ℤ ta (pos 0)
    then Ordering.eq
    else compare_pre a b

unfoldable pub compare_parsed : GenericVersion → GenericVersion → Ordering
compare_parsed pa pb =
    first_nonzero (compare_release pa.release pb.release) (compare_qualifiers pa.pre pb.pre)

-- `none` is `ok == false`.
unfoldable pub compare_generic : Bytes → Bytes → Option Ordering
compare_generic a b = elim (parse_generic a) [
  | none ↦ none
  | some pa ↦ elim (parse_generic b) [ none ↦ none | some pb ↦ some (compare_parsed pa pb) ]
]
