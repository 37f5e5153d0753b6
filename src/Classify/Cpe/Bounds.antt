-- ===== src/Classify/Cpe/Bounds.antt =====
-- The bounds of a CPE entry as what a comparison with each may give.
use bongsu.Prelude.{
  Ordering, ◌≡◌, Bool, true, false, not, ◌&&◌, Option, none, some, List, [], ◌∷◌, ◌++◌, arith,
  if◌then◌else◌, all_of, any_of, refl,
}
use bongsu.Text.{Bytes, codes, equal, is_empty, trim_space, one_of}
use bongsu.Vercmp.{compare}
use bongsu.Classify.{AffectedProduct}
use bongsu.Classify.Cpe.{
  vercmp_generic, at_least, above, at_most, below, is_same, exact_match, cpe_version_affected,
}

-- The results of a comparison with a limit that stand for a version in the range.
pub record Bound : Type 0 where
  pub limit : Bytes
  pub sides : List Ordering

-- The bounds that an entry gives: what is blank gives none.
abbrev pub given : Bytes → List Ordering → List Bound
given s sides =
    if is_empty (trim_space s) then [] else record { limit = trim_space s; sides = sides } ∷ []

abbrev pub bounds : AffectedProduct → List Bound
bounds p =
    given p.version_start_including (Ordering.eq ∷ Ordering.gt ∷ [])
    ++ (given p.version_start_excluding (Ordering.gt ∷ [])
        ++ (given p.version_end_including (Ordering.lt ∷ Ordering.eq ∷ [])
            ++ given p.version_end_excluding (Ordering.lt ∷ [])))

abbrev same_side : Ordering → Ordering → Bool
same_side Ordering.lt Ordering.lt = true
same_side Ordering.eq Ordering.eq = true
same_side Ordering.gt Ordering.gt = true
same_side r s = false

-- Two versions that cannot be compared meet no bound.
abbrev stands : List Ordering → Option Ordering → Bool
stands sides none = false
stands sides (some r) = any_of (same_side r) sides

abbrev pub meets : Bytes → Bound → Bool
meets installed b = stands b.sides (compare [] installed b.limit)

-- The exact version, where an entry has one that is not a wildcard, is a bound that only an equal
-- version meets.
abbrev pub is_pinned : Bytes → Bytes → Bool
is_pinned installed exact =
    not (one_of exact ([] ∷ codes "*" ∷ codes "-" ∷ []))
    && meets installed (record { limit = exact; sides = Ordering.eq ∷ [] })

abbrev pub no_bound : List Bound → Bool
no_bound [] = true
no_bound (b ∷ bs) = false

at_least-stands : (o : Option Ordering) → at_least o ≡ stands (Ordering.eq ∷ Ordering.gt ∷ []) o
at_least-stands none = refl
at_least-stands (some Ordering.lt) = refl
at_least-stands (some Ordering.eq) = refl
at_least-stands (some Ordering.gt) = refl

above-stands : (o : Option Ordering) → above o ≡ stands (Ordering.gt ∷ []) o
above-stands none = refl
above-stands (some Ordering.lt) = refl
above-stands (some Ordering.eq) = refl
above-stands (some Ordering.gt) = refl

at_most-stands : (o : Option Ordering) → at_most o ≡ stands (Ordering.lt ∷ Ordering.eq ∷ []) o
at_most-stands none = refl
at_most-stands (some Ordering.lt) = refl
at_most-stands (some Ordering.eq) = refl
at_most-stands (some Ordering.gt) = refl

below-stands : (o : Option Ordering) → below o ≡ stands (Ordering.lt ∷ []) o
below-stands none = refl
below-stands (some Ordering.lt) = refl
below-stands (some Ordering.eq) = refl
below-stands (some Ordering.gt) = refl

is_same-stands : (o : Option Ordering) → is_same o ≡ stands (Ordering.eq ∷ []) o
is_same-stands none = refl
is_same-stands (some Ordering.lt) = refl
is_same-stands (some Ordering.eq) = refl
is_same-stands (some Ordering.gt) = refl

exact_match-is_pinned :
    (installed exact : Bytes) → exact_match installed exact ≡ is_pinned installed exact
unfolding vercmp_generic one_of equal
exact_match-is_pinned installed exact =
    rw (is_same-stands (vercmp_generic installed exact)) (ground arith)

-- `cpeVersionAffected` holds exactly when the installed version can be compared with every bound
-- that the entry gives and is on its side of each: equal or above, above, equal or below, below;
-- and for an entry with no bound, when the exact version is not blank, `*` or `-` and compares as
-- equal.
pub cpe_version_affected_lem :
    (installed : Bytes) (p : AffectedProduct)
    → cpe_version_affected installed p ≡ (
        if no_bound (bounds p)
        then is_pinned installed (trim_space p.version)
        else all_of (meets installed) (bounds p))
unfolding cpe_version_affected vercmp_generic
cpe_version_affected_lem installed p =
    rw
      (
        exact_match-is_pinned installed (trim_space p.version),
        at_least-stands (vercmp_generic installed (trim_space p.version_start_including)),
        above-stands (vercmp_generic installed (trim_space p.version_start_excluding)),
        at_most-stands (vercmp_generic installed (trim_space p.version_end_including)),
        below-stands (vercmp_generic installed (trim_space p.version_end_excluding)),
      )
      (ground arith)
