-- ===== src/Classify/Range.antt =====
-- internal/server/db/classify.go: the epoch of a version, and the ranges of an advisory.
pub mod Sound
pub mod Intervals
use bongsu.Prelude.{
  ℕ, zero, suc, Ordering, ◌≡◌, refl, Bool, true, false, not, ◌&&◌, ◌||◌, Option, none, some, List,
  [], ◌∷◌, arith, if◌then◌else◌, take, drop, all_of, any_of, Bool-cases, Option-cases, and_split,
  inl, inr,
}
use bongsu.Prelude.Int.{ℤ, pos, negsuc}
use bongsu.Text.{Bytes, codes, equal, is_empty, trim_space}
use bongsu.Vercmp.{compare}
use bongsu.Vercmp.Chars.{index_byte}
use bongsu.Vercmp.Deb.{atoi}
use bongsu.Classify.{AffectedRangeEvent, AffectedRange, AffectedProduct}
use bongsu.Classify.Fixed.{is_safe_fixed_version, unique_fixed_versions}

-- `none` is `ok == false`.
unfoldable pub numeric_version_epoch : Bytes → Option ℤ
unfolding trim_space index_byte atoi
numeric_version_epoch s =
    let v = trim_space s in
    elim (index_byte v b':') [
      | none ↦ none
      | some zero ↦ none
      | some (suc i) ↦ atoi (take (suc i) v)
    ]

unfoldable pub strip_version_epoch : Bytes → Bytes
unfolding index_byte atoi
strip_version_epoch v = elim (index_byte v b':') [
  | none ↦ v
  | some zero ↦ v
  | some (suc i) ↦ elim (atoi (take (suc i) v)) [ none ↦ v | some e ↦ drop (suc (suc i)) v ]
]

-- `bHasEpoch && be > 0`
abbrev pub is_positive : Option ℤ → Bool
is_positive (some (pos (suc n))) = true
is_positive _ = false

abbrev pub is_none {ℓ} : {A : Type ℓ} → Option A → Bool
is_none none = true
is_none (some a) = false

-- The version that `b` is taken as in the comparison with `a`.
unfoldable pub tolerated : Bytes → Bytes → Bytes
unfolding numeric_version_epoch strip_version_epoch
tolerated a b =
    if is_none (numeric_version_epoch a) && is_positive (numeric_version_epoch b)
    then strip_version_epoch b
    else b

unfoldable pub compare_versions : Bytes → Bytes → Bytes → Option Ordering
unfolding tolerated compare
compare_versions eco a b = compare eco a (tolerated a b)

-- One step of `versionInRange` has returned, or goes on with `active`.
pub data Scan : Type 0 where
  returned : Bool → Scan
  going : Bool → Scan

-- What the tests of a bound do: in the range, above the bound, or not comparable.
abbrev pub below : Option Ordering → Scan
below none = returned false
below (some Ordering.lt) = returned true
below (some _) = going false

abbrev pub up_to : Option Ordering → Scan
up_to none = returned false
up_to (some Ordering.gt) = going false
up_to (some _) = returned true

abbrev pub from : Option Ordering → Scan
from none = returned false
from (some Ordering.lt) = going false
from (some _) = going true

unfoldable pub introduced_step : Bytes → Bytes → AffectedRangeEvent → Bool → Scan
introduced_step eco installed ev active =
    if is_empty ev.introduced
    then going active
    else if equal ev.introduced (codes "0")
    then going true
    else from (compare_versions eco installed ev.introduced)

unfoldable pub fixed_step : Bytes → Bytes → AffectedRangeEvent → Bool → Scan
fixed_step eco installed ev active =
    if active && not (is_empty ev.fixed)
    then if not (is_safe_fixed_version ev.fixed)
      then returned false
      else below (compare_versions eco installed ev.fixed)
    else going active

unfoldable pub last_affected_step : Bytes → Bytes → AffectedRangeEvent → Bool → Scan
last_affected_step eco installed ev active =
    if active && not (is_empty ev.last_affected)
    then up_to (compare_versions eco installed ev.last_affected)
    else going active

unfoldable pub limit_step : Bytes → Bytes → AffectedRangeEvent → Bool → Scan
limit_step eco installed ev active =
    if active && not (is_empty ev.limit)
    then below (compare_versions eco installed ev.limit)
    else going active

abbrev pub and_then : Scan → (Bool → Scan) → Scan
and_then (returned b) k = returned b
and_then (going active) k = k active

-- The body of the loop.
unfoldable pub event_step : Bytes → Bytes → AffectedRangeEvent → Bool → Scan
unfolding introduced_step fixed_step last_affected_step limit_step
event_step eco installed ev active = and_then (introduced_step eco installed ev active) (λ a.
    and_then (fixed_step eco installed ev a)
      (λ a'. and_then (last_affected_step eco installed ev a') (limit_step eco installed ev)))

unfoldable pub version_in_range_from : Bytes → Bytes → Bool → List AffectedRangeEvent → Bool
version_in_range_from eco installed active [] = active
version_in_range_from eco installed active (ev ∷ events) =
    elim (event_step eco installed ev active) [
      | returned b ↦ b
      | going active' ↦ version_in_range_from eco installed active' events
    ]

unfoldable pub version_in_range : Bytes → Bytes → List AffectedRangeEvent → Bool
unfolding version_in_range_from event_step compare_versions is_safe_fixed_version
version_in_range eco installed events = version_in_range_from eco installed false events

-- `versionLess`, where its `ok` is true and so is its result.
abbrev pub is_less : Option Ordering → Bool
is_less (some Ordering.lt) = true
is_less _ = false

-- `versionIsAffected`, from `uniqueFixedVersions` on.
abbrev pub below_only_fix : Bytes → Bytes → List Bytes → Bool
below_only_fix eco installed (f ∷ []) = is_less (compare_versions eco installed f)
below_only_fix eco installed _ = false

abbrev pub in_some_range : Bytes → Bytes → List AffectedRange → Bool
in_some_range eco installed =
    any_of (λ (r : AffectedRange). version_in_range eco installed r.events)

unfoldable pub version_is_affected : Bytes → Bytes → AffectedProduct → Bool
unfolding version_in_range unique_fixed_versions
version_is_affected eco installed p =
    let by_fix = below_only_fix eco installed (unique_fixed_versions p.fixed) in
    if is_empty installed
    then false
    else elim p.ranges [ [] ↦ by_fix | r ∷ rs ↦ in_some_range eco installed (r ∷ rs) ]
