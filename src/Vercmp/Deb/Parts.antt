-- ===== src/Vercmp/Deb/Parts.antt =====
-- The order of deb-version(5): a version is cut into pairs of a run of non-digits and the number
-- behind it, and two versions are compared pair by pair. A tilde sorts before the end of a run,
-- the end before every letter, and a letter before every other character. It shares with the
-- model of the code the test for a digit and the number that digits stand for.
use bongsu.Prelude.{
  ℕ, zero, suc, compare, Ordering, Bool, not, ◌||◌, ◌==◌, if◌then◌else◌, List, [], ◌∷◌, map, length,
  take_while, drop_while,
}
use bongsu.Prelude.Order.{
  first_nonzero, IsTotalPreorder, compare-IsTotalPreorder, on-IsTotalPreorder, then-IsTotalPreorder,
  compare_padded, compare_padded-IsTotalPreorder,
}
use bongsu.Text.{Bytes, within}
use bongsu.Vercmp.Chars.{is_digit}
use bongsu.Vercmp.Digits.{value}

-- Where a character stands: its class, and the byte within the class.
abbrev pub Place : Type 0
Place = ℕ × ℕ

abbrev pub end_place : Place
end_place = (1, 0)

unfoldable pub place : ℕ → Place
place c =
    if c == b'~'
    then (0, 0)
    else if within b'A' b'Z' c || within b'a' b'z' c
    then (2, c)
    else (3, c)

abbrev pub compare_place : Place → Place → Ordering
compare_place p q = first_nonzero (compare p.0 q.0) (compare p.1 q.1)

-- The places of a run of non-digits, and the number behind it.
abbrev pub Part : Type 0
Part = List Place × ℕ

abbrev pub is_nondigit : ℕ → Bool
is_nondigit c = not (is_digit c)

abbrev pub nondigits : Bytes → Bytes
nondigits = take_while is_nondigit

abbrev pub from_digit : Bytes → Bytes
from_digit = drop_while is_nondigit

abbrev pub first_part : Bytes → Part
first_part s = (map place (nondigits s), value (take_while is_digit (from_digit s)))

abbrev pub behind_part : Bytes → Bytes
behind_part s = drop_while is_digit (from_digit s)

unfoldable pub parts_from : ℕ → Bytes → List Part
parts_from zero s = []
parts_from (suc n) [] = []
parts_from (suc n) (c ∷ s) = first_part (c ∷ s) ∷ parts_from n (behind_part (c ∷ s))

unfoldable pub parts : Bytes → List Part
unfolding parts_from
parts s = parts_from (length s) s

-- A shorter run of non-digits is filled up with the place of its end.
abbrev pub compare_nondigits : List Place → List Place → Ordering
compare_nondigits = compare_padded compare_place end_place

abbrev pub compare_part : Part → Part → Ordering
compare_part p q = first_nonzero (compare_nondigits p.0 q.0) (compare p.1 q.1)

-- What a string that has ended still counts as: no non-digits, and the number 0.
abbrev pub no_part : Part
no_part = ([], 0)

abbrev pub compare_parts : List Part → List Part → Ordering
compare_parts = compare_padded compare_part no_part

compare_place-IsTotalPreorder : IsTotalPreorder compare_place
compare_place-IsTotalPreorder =
    then-IsTotalPreorder (on-IsTotalPreorder (λ (p : Place). p.0) compare-IsTotalPreorder)
      (on-IsTotalPreorder (λ (p : Place). p.1) compare-IsTotalPreorder)

compare_part-IsTotalPreorder : IsTotalPreorder compare_part
compare_part-IsTotalPreorder =
    then-IsTotalPreorder
      (on-IsTotalPreorder (λ (p : Part). p.0)
        (compare_padded-IsTotalPreorder compare_place end_place compare_place-IsTotalPreorder))
      (on-IsTotalPreorder (λ (p : Part). p.1) compare-IsTotalPreorder)

pub compare_parts-IsTotalPreorder : IsTotalPreorder compare_parts
compare_parts-IsTotalPreorder =
    compare_padded-IsTotalPreorder compare_part no_part compare_part-IsTotalPreorder
