-- ===== src/Vercmp/Generic/Cycle.antt =====
-- The two orders of `comparePreIdent`: the ranks of the known names and the order of the text.
use bongsu.Prelude.{Ordering, ◌≡◌, ◌∙◌, refl, false, none, some}
use bongsu.Prelude.Int.{ℤ, negsuc}
use bongsu.Text.{Bytes, codes, to_lower, equal}
use bongsu.Vercmp.Chars.{is_digit}
use bongsu.Vercmp.Digits.{strcmp}
use bongsu.Vercmp.Generic.{all_digits, qualifier_rank, compare_names, compare_pre_ident}

-- A name that has a rank, and is in lower case.
record Ranked (s : Bytes) (r : ℤ) : Type 0 where
  no_number : all_digits s ≡ false
  rank : qualifier_rank s ≡ some r
  lower : to_lower s ≡ s

alpha-Ranked : Ranked (codes "alpha") (negsuc 3)
unfolding all_digits qualifier_rank is_digit equal
alpha-Ranked = record { no_number = refl; rank = refl; lower = refl }

dev-Ranked : Ranked (codes "dev") (negsuc 4)
unfolding all_digits qualifier_rank is_digit equal
dev-Ranked = record { no_number = refl; rank = refl; lower = refl }

by_name :
    (a b : Bytes)
    → all_digits a ≡ false
    → all_digits b ≡ false
    → compare_pre_ident a b ≡ compare_names a b
unfolding compare_pre_ident
by_name a b x y = rw (x, y)

module _ {s : Bytes} {r : ℤ} (known : Ranked s r) (name : Bytes) where
  -- A ranked name and an unknown one are compared as text.
  ranked_unknown :
      all_digits name ≡ false
      → qualifier_rank name ≡ none
      → (compare_pre_ident s name ≡ strcmp s (to_lower name))
        × (compare_pre_ident name s ≡ strcmp (to_lower name) s)
  unfolding compare_names
  ranked_unknown d q = (
    by_name s name known.no_number d ∙ rw (known.rank, compare_names) (rw (q, known.lower)),
    by_name name s d known.no_number ∙ rw (q, compare_names) (rw known.lower),
  )

-- An identifier that is not a number and has no rank, and whose lower case text stands between
-- "alpha" and "dev", closes a cycle of `comparePreIdent`: "dev" is below "alpha", which is below
-- the identifier, which is below "dev".
pub compare_pre_ident_cycle :
    (name : Bytes)
    → all_digits name ≡ false
    → qualifier_rank name ≡ none
    → strcmp (codes "alpha") (to_lower name) ≡ Ordering.lt
    → strcmp (to_lower name) (codes "dev") ≡ Ordering.lt
    → (compare_pre_ident (codes "dev") (codes "alpha") ≡ Ordering.lt)
      × (compare_pre_ident (codes "alpha") name ≡ Ordering.lt)
      × (compare_pre_ident name (codes "dev") ≡ Ordering.lt)
unfolding compare_names
compare_pre_ident_cycle name d r h k = (
  by_name _ _ dev-Ranked.no_number alpha-Ranked.no_number
      ∙ rw (dev-Ranked.rank, compare_names) (rw alpha-Ranked.rank),
  (ranked_unknown alpha-Ranked name d r).0 ∙ h,
  (ranked_unknown dev-Ranked name d r).1 ∙ k,
)
