-- ===== src/Classify/Range/Intervals.antt =====
-- A range that is written as intervals: each is an event that introduces the vulnerability, and an
-- event behind it that ends it.
use bongsu.Prelude.{
  Ordering, ◌≡◌, refl, Bool, true, false, not, ◌&&◌, ◌||◌, Option, none, some, List, [], ◌∷◌, arith,
  if◌then◌else◌, any_of, all_of, Bool-cases, and_split, inl, inr,
}
use bongsu.Text.{Bytes, codes, equal, is_empty}
use bongsu.Classify.{AffectedRangeEvent}
use bongsu.Classify.Fixed.{is_safe_fixed_version}
use bongsu.Classify.Range.{
  returned, going, from, is_none, compare_versions, introduced_step, fixed_step, last_affected_step,
  limit_step, event_step, version_in_range_from, version_in_range,
}
use bongsu.Classify.Range.Sound.{at_or_above}

pub data Ending : Type 0 where
  by_fix by_last_affected by_limit : Ending

pub record Interval : Type 0 where
  pub start : Bytes
  pub ending : Ending
  pub end : Bytes

abbrev start_event : Interval → AffectedRangeEvent
start_event iv = record { introduced = iv.start; fixed = []; last_affected = []; limit = [] }

abbrev end_event : Ending → Bytes → AffectedRangeEvent
end_event by_fix s = record { introduced = []; fixed = s; last_affected = []; limit = [] }
end_event by_last_affected s = record { introduced = []; fixed = []; last_affected = s; limit = [] }
end_event by_limit s = record { introduced = []; fixed = []; last_affected = []; limit = s }

abbrev pub events_of : List Interval → List AffectedRangeEvent
events_of [] = []
events_of (iv ∷ ivs) = start_event iv ∷ end_event iv.ending iv.end ∷ events_of ivs

abbrev pub at_start : Bytes → Bytes → Bytes → Bool
at_start eco installed start =
    equal start (codes "0") || at_or_above (compare_versions eco installed start)

-- An interval ends below a fix and below a limit, and at the last affected version.
abbrev pub before_end : Ending → Option Ordering → Bool
before_end e none = false
before_end e (some Ordering.lt) = true
before_end by_last_affected (some Ordering.eq) = true
before_end e (some _) = false

abbrev pub inside : Bytes → Bytes → Interval → Bool
inside eco installed iv =
    at_start eco installed iv.start && before_end iv.ending (compare_versions eco installed iv.end)

abbrev pub safe_end : Ending → Bytes → Bool
safe_end by_fix s = is_safe_fixed_version s
safe_end _ s = true

-- Both ends are given and can be compared with the installed version, and a fix is a safe one.
abbrev pub usable : Bytes → Bytes → Interval → Bool
usable eco installed iv =
    not (is_empty iv.start)
    && ((equal iv.start (codes "0") || not (is_none (compare_versions eco installed iv.start)))
        && (not (is_empty iv.end)
            && (not (is_none (compare_versions eco installed iv.end))
                && safe_end iv.ending iv.end)))

from_lem : (o : Option Ordering) → not (is_none o) ≡ true → from o ≡ going (at_or_above o)
from_lem none h = ground arith
from_lem (some Ordering.lt) h = refl
from_lem (some Ordering.eq) h = refl
from_lem (some Ordering.gt) h = refl

module _ (eco installed : Bytes) where
  start_step :
      (iv : Interval) (active : Bool)
      → not (is_empty iv.start) ≡ true
      → (equal iv.start (codes "0") || not (is_none (compare_versions eco installed iv.start)))
        ≡ true
      → event_step eco installed (start_event iv) active ≡ going (at_start eco installed iv.start)
  unfolding event_step introduced_step fixed_step last_affected_step limit_step
  start_step iv active h k = ground arith

  end_step :
      (e : Ending) (s : Bytes) (active : Bool)
      → not (is_empty s) ≡ true
      → not (is_none (compare_versions eco installed s)) ≡ true
      → safe_end e s ≡ true
      → event_step eco installed (end_event e s) active ≡ (
          if active && before_end e (compare_versions eco installed s)
          then returned true
          else going false)
  unfolding event_step introduced_step fixed_step last_affected_step limit_step
  end_step by_fix s active h k safe = ground arith
  end_step by_last_affected s active h k safe = ground arith
  end_step by_limit s active h k safe = ground arith

  version_in_range_from-events_of :
      (ivs : List Interval)
      → all_of (usable eco installed) ivs ≡ true
      → version_in_range_from eco installed false (events_of ivs)
        ≡ any_of (inside eco installed) ivs
  unfolding version_in_range_from
  version_in_range_from-events_of [] u = refl
  version_in_range_from-events_of (iv ∷ ivs) u =
      let (here, rest) = and_split (usable eco installed iv) u in
      let (a, here1) = and_split (not (is_empty iv.start)) here in
      let (b, here2) =
        and_split
          (equal iv.start (codes "0") || not (is_none (compare_versions eco installed iv.start)))
          here1 in
      let (c, here3) = and_split (not (is_empty iv.end)) here2 in
      let (d, e) = and_split (not (is_none (compare_versions eco installed iv.end))) here3 in
      let ih = version_in_range_from-events_of ivs rest in
      rw (start_step iv false a b, version_in_range_from)
        (rw (end_step iv.ending iv.end (at_start eco installed iv.start) c d e)
          (elim (Bool-cases (inside eco installed iv)) [ inl x ↦ rw x | inr x ↦ rw (x, ih) ]))

-- `versionInRange`, on the events of a list of intervals in any order, each with an event for its
-- start and one for its end and `usable` (both ends are given, the end and any start but "0" can
-- be compared with the installed version, and a fix is a safe one), reports whether the version
-- lies inside one of the intervals: from its start on, below its fix or limit or up to its last
-- affected version.
pub version_in_range-events_of :
    (eco installed : Bytes) (ivs : List Interval)
    → all_of (usable eco installed) ivs ≡ true
    → version_in_range eco installed (events_of ivs) ≡ any_of (inside eco installed) ivs
unfolding version_in_range
version_in_range-events_of eco installed ivs u = version_in_range_from-events_of eco installed ivs u
