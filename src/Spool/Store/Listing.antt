-- ===== src/Spool/Store/Listing.antt =====
-- What a change of the spool directory makes of its listing.
use bongsu.Prelude.{
  ◌≡◌, refl, sym, ap, ◌∙◌, true, none, List, [], ◌∷◌, arith, if◌then◌else◌, Bool-cases, inl, inr,
}
use bongsu.Prelude.Sort.{filter, sort, all_of-sort, sort-filter, filter_all}
use bongsu.Text.{Bytes, equal, equal_sym, equal_iff}
use bongsu.Text.Order.{string_le, string_le_total, string_le_trans}
use bongsu.Text.Distinct.{other_than, lacks_name, all_distinct, all_distinct-sort}
use bongsu.Spool.Store.{Dir, find, without, names, spooled}

-- The spooled files, oldest first.
abbrev pub listing : Dir → List Bytes
listing d = sort string_le (spooled d)

pub spooled-without :
    (n : Bytes) (d : Dir) → spooled (without n d) ≡ filter (other_than n) (spooled d)
unfolding spooled without filter
spooled-without n [] = refl
spooled-without n (e ∷ d) = ground (arith, spooled-without n d)

pub listing-without :
    (n : Bytes) (d : Dir) → listing (without n d) ≡ filter (other_than n) (listing d)
listing-without n d =
    ap (sort string_le) (spooled-without n d)
    ∙ sort-filter string_le string_le_total string_le_trans (other_than n) (spooled d)

pub lacks_name-spooled : (n : Bytes) (d : Dir) → find n d ≡ none → lacks_name n (spooled d) ≡ true
unfolding spooled filter find
lacks_name-spooled n [] h = refl
lacks_name-spooled n (e ∷ d) h = ground (arith, lacks_name-spooled n d)

spooled-missing :
    (n : Bytes) (d : Dir) → find n d ≡ none → filter (other_than n) (spooled d) ≡ spooled d
spooled-missing n d h = filter_all (other_than n) (spooled d) (lacks_name-spooled n d h)

pub lacks_name-listing : (n : Bytes) (d : Dir) → find n d ≡ none → lacks_name n (listing d) ≡ true
lacks_name-listing n d h =
    all_of-sort string_le (other_than n) (spooled d) ∙ lacks_name-spooled n d h

pub find-without :
    (m n : Bytes) (d : Dir) → find m (without n d) ≡ (if equal n m then none else find m d)
unfolding find without filter
find-without m n [] = ground arith
find-without m n (e ∷ d) = elim (Bool-cases (equal e.name n)) [
  | inl same ↦ rw (same, (equal_iff e.name n).0 same, find-without m n d) (ground arith)
  | inr other ↦ ground (
    arith,
    find-without m n d,
    λ (h : equal e.name m ≡ true).
        ap (equal n) (sym ((equal_iff e.name m).0 h)) ∙ equal_sym n e.name ∙ other,
  )
]

lacks_name-names :
    (n : Bytes) (d : Dir) → lacks_name n (names d) ≡ true → lacks_name n (spooled d) ≡ true
unfolding spooled filter
lacks_name-names n [] h = refl
lacks_name-names n (e ∷ d) h = ground (arith, lacks_name-names n d)

all_distinct-spooled : (d : Dir) → all_distinct (names d) ≡ true → all_distinct (spooled d) ≡ true
unfolding spooled filter
all_distinct-spooled [] h = refl
all_distinct-spooled (e ∷ d) h = ground (arith, all_distinct-spooled d, lacks_name-names e.name d)

pub all_distinct-listing :
    (d : Dir) → all_distinct (names d) ≡ true → all_distinct (listing d) ≡ true
all_distinct-listing d h = all_distinct-sort string_le (spooled d) (all_distinct-spooled d h)
