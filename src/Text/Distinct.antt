-- ===== src/Text/Distinct.antt =====
-- Lists of strings that name none twice.
use bongsu.Prelude.{◌≡◌, refl, ◌∙◌, Bool, true, not, ◌&&◌, List, [], ◌∷◌, arith, all_of, and_split}
use bongsu.Prelude.Sort.{insert, sort, all_of-insert, all_of-sort, filter, filter_all}
use bongsu.Text.{Bytes, equal, equal_sym, equal_self}

abbrev pub other_than : Bytes → Bytes → Bool
other_than n m = not (equal m n)

-- `n` is none of them.
abbrev pub lacks_name : Bytes → List Bytes → Bool
lacks_name n = all_of (other_than n)

abbrev pub all_distinct : List Bytes → Bool
all_distinct [] = true
all_distinct (n ∷ ns) = lacks_name n ns && all_distinct ns

module _ (le : Bytes → Bytes → Bool) where
  all_distinct-insert :
      (n : Bytes) (ns : List Bytes)
      → lacks_name n ns ≡ true
      → all_distinct ns ≡ true
      → all_distinct (insert le n ns) ≡ true
  unfolding insert
  all_distinct-insert n [] h k = refl
  all_distinct-insert n (m ∷ ns) h k =
      ground (arith, all_distinct-insert n ns, equal_sym n m, all_of-insert le (other_than m) n ns)

  pub all_distinct-sort :
      (ns : List Bytes) → all_distinct ns ≡ true → all_distinct (sort le ns) ≡ true
  unfolding sort
  all_distinct-sort [] h = refl
  all_distinct-sort (n ∷ ns) h =
      let (here, rest) = and_split (lacks_name n ns) h in
      all_distinct-insert n (sort le ns) (all_of-sort le (other_than n) ns ∙ here)
        (all_distinct-sort ns rest)

-- The head of a list that is distinct is not in the rest.
pub filter-head :
    (n : Bytes) (ns : List Bytes)
    → all_distinct (n ∷ ns) ≡ true
    → filter (other_than n) (n ∷ ns) ≡ ns
unfolding filter
filter-head n ns h =
    rw (equal_self n, filter_all (other_than n) ns ((and_split (lacks_name n ns) h).0)) refl
