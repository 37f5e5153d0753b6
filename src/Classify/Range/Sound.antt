-- ===== src/Classify/Range/Sound.antt =====
-- The events of a range that introduce the vulnerability at or below a version.
use bongsu.Prelude.{
  Ordering, ◌≡◌, refl, Bool, true, false, not, ◌&&◌, ◌||◌, Option, none, some, List, [], ◌∷◌, arith,
  if◌then◌else◌, any_of, Bool-cases, inl, inr,
}
use bongsu.Text.{Bytes, codes, equal, is_empty}
use bongsu.Classify.{AffectedRangeEvent}
use bongsu.Classify.Fixed.{is_safe_fixed_version}
use bongsu.Classify.Range.{
  Scan, returned, going, and_then, from, below, up_to, compare_versions, introduced_step,
  fixed_step, last_affected_step, limit_step, event_step, version_in_range_from, version_in_range,
}

-- The installed version is at the other one or above.
abbrev pub at_or_above : Option Ordering → Bool
at_or_above none = false
at_or_above (some Ordering.lt) = false
at_or_above (some _) = true

abbrev pub starts : Bytes → Bytes → AffectedRangeEvent → Bool
starts eco installed ev =
    not (is_empty ev.introduced)
    && (equal ev.introduced (codes "0")
        || at_or_above (compare_versions eco installed ev.introduced))

-- A step does not find more than `b` says.
abbrev Within : Bool → Scan → Type 0
Within b (returned r) = r ≡ true → b ≡ true
Within b (going active) = active ≡ true → b ≡ true

Within-and_then :
    (b : Bool) (s : Scan) (k : Bool → Scan)
    → Within b s
    → ((active : Bool) → (active ≡ true → b ≡ true) → Within b (k active))
    → Within b (and_then s k)
Within-and_then b (returned r) k h g = h
Within-and_then b (going active) k h g = g active h

from-Within :
    (b : Bool) (o : Option Ordering) → (at_or_above o ≡ true → b ≡ true) → Within b (from o)
from-Within b none h = λ e. ground arith
from-Within b (some Ordering.lt) h = λ e. ground arith
from-Within b (some Ordering.eq) h = h
from-Within b (some Ordering.gt) h = h

below-Within : (b : Bool) (o : Option Ordering) → b ≡ true → Within b (below o)
below-Within b none h = λ e. h
below-Within b (some Ordering.lt) h = λ e. h
below-Within b (some Ordering.eq) h = λ e. h
below-Within b (some Ordering.gt) h = λ e. h

up_to-Within : (b : Bool) (o : Option Ordering) → b ≡ true → Within b (up_to o)
up_to-Within b none h = λ e. h
up_to-Within b (some Ordering.lt) h = λ e. h
up_to-Within b (some Ordering.eq) h = λ e. h
up_to-Within b (some Ordering.gt) h = λ e. h

-- A step that looks at a bound only while the version is in the range.
guarded-Within :
    (b active guard : Bool) (s : Scan)
    → (active ≡ true → b ≡ true)
    → (b ≡ true → Within b s)
    → Within b (if active && guard then s else going active)
guarded-Within b true true s h k = k (h refl)
guarded-Within b true false s h k = h
guarded-Within b false guard s h k = h

module _ (eco installed : Bytes) (ev : AffectedRangeEvent) (b : Bool) where
  introduced_step-Within :
      (active : Bool)
      → (active ≡ true → b ≡ true)
      → (starts eco installed ev ≡ true → b ≡ true)
      → Within b (introduced_step eco installed ev active)
  unfolding introduced_step
  introduced_step-Within active h k = elim (Bool-cases (is_empty ev.introduced)) [
    | inl e ↦ rw (e, introduced_step) h
    | inr n ↦ elim (Bool-cases (equal ev.introduced (codes "0"))) [
      | inl z ↦ rw (n, introduced_step) (rw z (λ _. k (rw (n, z))))
      | inr z ↦
          rw (n, introduced_step)
            (rw z (
              from-Within b (compare_versions eco installed ev.introduced)
                (λ above. k (rw (n, z, above)))))
    ]
  ]

  fixed_step-Within :
      (active : Bool) → (active ≡ true → b ≡ true) → Within b (fixed_step eco installed ev active)
  unfolding fixed_step
  fixed_step-Within active h = guarded-Within b active (not (is_empty ev.fixed)) _ h (λ e.
      elim (Bool-cases (is_safe_fixed_version ev.fixed)) [
        | inl safe ↦ rw safe (below-Within b (compare_versions eco installed ev.fixed) e)
        | inr unsafe ↦ rw unsafe (λ _. e)
      ])

  event_step-Within :
      (active : Bool)
      → (active ≡ true → b ≡ true)
      → (starts eco installed ev ≡ true → b ≡ true)
      → Within b (event_step eco installed ev active)
  unfolding event_step last_affected_step limit_step
  event_step-Within active h k = Within-and_then b _ _ (introduced_step-Within active h k) (λ a h'.
      Within-and_then b _ _ (fixed_step-Within a h') (λ a' h''.
        Within-and_then b _ _
          (guarded-Within b a' (not (is_empty ev.last_affected)) _ h''
            (up_to-Within b (compare_versions eco installed ev.last_affected)))
          (λ a'' h'''.
            guarded-Within b a'' (not (is_empty ev.limit)) _ h'''
              (below-Within b (compare_versions eco installed ev.limit)))))

-- What the loop finds: it was in a range before, or an event starts one.
abbrev found : Bytes → Bytes → Bool → List AffectedRangeEvent → Bool
found eco installed active events = active || any_of (starts eco installed) events

result-Within :
    (eco installed : Bytes) (b : Bool) (events : List AffectedRangeEvent) (s : Scan)
    → Within b s
    → ((active : Bool)
        → version_in_range_from eco installed active events ≡ true
        → found eco installed active events ≡ true)
    → (elim s [ returned r ↦ r | going active ↦ version_in_range_from eco installed active events ])
      ≡ true
    → (b || any_of (starts eco installed) events) ≡ true
result-Within eco installed b events (returned r) h ih e = rw (h e)
result-Within eco installed b events (going active) h ih e = ground (arith, ih active e, h)

version_in_range_from_lem :
    (eco installed : Bytes) (active : Bool) (events : List AffectedRangeEvent)
    → version_in_range_from eco installed active events ≡ true
    → found eco installed active events ≡ true
unfolding version_in_range_from
version_in_range_from_lem eco installed active [] e = ground arith
version_in_range_from_lem eco installed active (ev ∷ events) e =
    let b = active || starts eco installed ev in
    let step =
      event_step-Within eco installed ev b active (λ h. ground (arith, h))
        (λ h. ground (arith, h)) in
    let result =
      result-Within eco installed b events (event_step eco installed ev active) step
        (λ a. version_in_range_from_lem eco installed a events) e in
    ground (arith, result)

-- When `versionInRange` reports a version, some event of the range, whatever its events,
-- introduces the vulnerability at "0" or at a version that the installed one is comparable with
-- and not below.
pub version_in_range-starts :
    (eco installed : Bytes) (events : List AffectedRangeEvent)
    → version_in_range eco installed events ≡ true
    → any_of (starts eco installed) events ≡ true
unfolding version_in_range
version_in_range-starts eco installed events e =
    version_in_range_from_lem eco installed false events e
