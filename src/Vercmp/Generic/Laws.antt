-- ===== src/Vercmp/Generic/Laws.antt =====
-- `compareGeneric` with its arguments exchanged.
use mathlib.Core.Option
use bongsu.Prelude.{
  Ordering, ◌≡◌, refl, ap, not, some, List, [], ◌∷◌, arith, Option-cases, inl, inr, if◌then◌else◌,
}
use bongsu.Prelude.Int.{ℤ, pos, eq_ℤ, compare_ℤ}
use bongsu.Prelude.Order.{
  opposite, opposite-first_nonzero, IsTotalPreorder, compare_padded-IsTotalPreorder,
}
use bongsu.Text.{Bytes, codes, to_lower}
use bongsu.Vercmp.Digits.{compare_num_str, strcmp-IsTotalPreorder, compare_num_str-IsTotalPreorder}
use bongsu.Vercmp.Generic.{
  GenericVersion, parse_generic, release_tier, compare_release, compare_names, compare_pre_ident,
  compare_pre, compare_qualifiers, compare_parsed, compare_generic,
}

pub compare_release-IsTotalPreorder : IsTotalPreorder compare_release
compare_release-IsTotalPreorder =
    compare_padded-IsTotalPreorder compare_num_str (codes "0") compare_num_str-IsTotalPreorder

compare_names-flip : (a b : Bytes) → compare_names b a ≡ opposite (compare_names a b)
unfolding compare_names
compare_names-flip a b = ground (arith, strcmp-IsTotalPreorder.flip (to_lower a) (to_lower b))

compare_pre_ident-flip : (a b : Bytes) → compare_pre_ident b a ≡ opposite (compare_pre_ident a b)
unfolding compare_pre_ident
compare_pre_ident-flip a b =
    ground (arith, compare_names-flip a b, compare_num_str-IsTotalPreorder.flip a b)

compare_pre-flip : (a b : List Bytes) → compare_pre b a ≡ opposite (compare_pre a b)
unfolding compare_pre
compare_pre-flip [] [] = refl
compare_pre-flip [] (y ∷ b) = refl
compare_pre-flip (x ∷ a) [] = refl
compare_pre-flip (x ∷ a) (y ∷ b) =
    rw (compare_pre_ident-flip x y, compare_pre-flip a b) (rw opposite-first_nonzero)

tiers-flip :
    (ta tb : ℤ) (p : Ordering)
    → (if not (eq_ℤ tb ta)
        then compare_ℤ tb ta
        else if eq_ℤ tb (pos 0)
        then Ordering.eq
        else opposite p)
      ≡ opposite
          (if not (eq_ℤ ta tb) then compare_ℤ ta tb else if eq_ℤ ta (pos 0) then Ordering.eq else p)
tiers-flip ta tb p = ground arith

compare_qualifiers-flip :
    (a b : List Bytes) → compare_qualifiers b a ≡ opposite (compare_qualifiers a b)
unfolding compare_qualifiers
compare_qualifiers-flip a b =
    rw (compare_pre-flip a b) (tiers-flip (release_tier a) (release_tier b) (compare_pre a b))

compare_parsed-flip : (p q : GenericVersion) → compare_parsed q p ≡ opposite (compare_parsed p q)
unfolding compare_parsed
compare_parsed-flip p q =
    rw
      (
        compare_release-IsTotalPreorder.flip p.release q.release,
        compare_qualifiers-flip p.pre q.pre,
      )
      (rw opposite-first_nonzero)

-- Exchanging the arguments of `compareGeneric` exchanges -1 and 1, and keeps a failure, on all
-- input.
pub compare_generic-flip :
    (a b : Bytes) → compare_generic b a ≡ Option.map opposite (compare_generic a b)
unfolding compare_generic
compare_generic-flip a b = elim (Option-cases (parse_generic a)) [
  | inl x ↦ elim (Option-cases (parse_generic b)) [
    | inl y ↦ rw (x, y, compare_generic)
    | inr (pb, y) ↦ rw (x, y, compare_generic) (rw x)
  ]
  | inr (pa, x) ↦ elim (Option-cases (parse_generic b)) [
    | inl y ↦ rw (x, y, compare_generic)
    | inr (pb, y) ↦ rw (x, y, compare_generic) (rw x (ap some (compare_parsed-flip pa pb)))
  ]
]
