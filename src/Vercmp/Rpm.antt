-- ===== src/Vercmp/Rpm.antt =====
-- internal/server/vercmp/rpm.go: `compareRPM` and `rpmvercmp`. An index that only moves forward
-- through a string is the suffix that is left.
pub mod Tokens
pub mod Runs
pub mod Refine
pub mod Laws
use bongsu.Prelude.{
  ℕ, zero, suc, ◌+◌, compare, Ordering, Bool, true, false, not, ◌&&◌, ◌||◌, Option, none, some, [],
  ◌∷◌, ◌==◌, if◌then◌else◌, length, take, drop, take_while, drop_while, starts_with,
}
use bongsu.Prelude.Order.{first_nonzero}
use bongsu.Text.{Bytes, equal, is_empty, codes}
use bongsu.Vercmp.Chars.{is_digit, is_alpha, is_alnum, index_byte, last_index_byte}
use bongsu.Vercmp.Digits.{strip_leading_zeros, strcmp}

-- One round of the loop returns from the function, continues at the two cursors, or breaks there.
pub data Step : Type 0 where
  decided : Ordering → Step
  continue : Bytes → Bytes → Step
  broken : Bytes → Bytes → Step

abbrev pub is_separator : ℕ → Bool
is_separator c = not (is_alnum c) && not (c == b'~') && not (c == b'^')

abbrev pub at_tilde : Bytes → Bool
at_tilde = starts_with (λ c. c == b'~')

abbrev pub at_caret : Bytes → Bool
at_caret = starts_with (λ c. c == b'^')

-- What a round does with the segments found, `segA` and `segB`, and the cursors behind them.
unfoldable pub compare_segments : Bool → Bytes → Bytes → Bytes → Bytes → Step
compare_segments is_num seg_a seg_b a b =
    let num_a = strip_leading_zeros seg_a in
    let num_b = strip_leading_zeros seg_b in
    let by_number = first_nonzero (compare (length num_a) (length num_b)) (strcmp num_a num_b) in
    let result = if is_num then by_number else strcmp seg_a seg_b in
    if is_empty seg_b
    then decided (if is_num then Ordering.gt else Ordering.lt)
    else elim result [ Ordering.eq ↦ continue a b | r ↦ decided r ]

-- A round from the segments on: neither string has ended, and no `~` or `^` stands here.
unfoldable pub segment_step : Bytes → Bytes → Step
segment_step a b =
    let in_run = if starts_with is_digit a then is_digit else is_alpha in
    compare_segments (starts_with is_digit a) (take_while in_run a) (take_while in_run b)
      (drop_while in_run a) (drop_while in_run b)

-- A round from behind the separators on.
unfoldable pub token_step : Bytes → Bytes → Step
token_step a b =
    if at_tilde a || at_tilde b
    then if not (at_tilde a)
      then decided Ordering.gt
      else if not (at_tilde b)
      then decided Ordering.lt
      else continue (drop 1 a) (drop 1 b)
    else if at_caret a || at_caret b
    then if is_empty a
      then decided Ordering.lt
      else if is_empty b
      then decided Ordering.gt
      else if not (at_caret a)
      then decided Ordering.gt
      else if not (at_caret b)
      then decided Ordering.lt
      else continue (drop 1 a) (drop 1 b)
    else if is_empty a || is_empty b
    then broken a b
    else segment_step a b

unfoldable pub step : Bytes → Bytes → Step
step a b = token_step (drop_while is_separator a) (drop_while is_separator b)

-- Behind the loop.
unfoldable pub leftover : Bytes → Bytes → Ordering
leftover a b =
    if is_empty a && is_empty b
    then Ordering.eq
    else if not (is_empty a)
    then Ordering.gt
    else Ordering.lt

-- `none` means that the fuel ran out.
unfoldable pub rpmvercmp_loop : ℕ → Bytes → Bytes → Option Ordering
rpmvercmp_loop zero a b = none
rpmvercmp_loop (suc fuel) a b =
    let next : Option Ordering = elim (step a b) [
      | decided r ↦ some r
      | continue a' b' ↦ rpmvercmp_loop fuel a' b'
      | broken a' b' ↦ some (leftover a' b')
    ] in
    if is_empty a && is_empty b then some (leftover a b) else next

-- The fuel is enough: `rpmvercmp_loop_lem` in Rpm/Refine.
unfoldable pub rpmvercmp : Bytes → Bytes → Ordering
unfolding rpmvercmp_loop leftover step token_step segment_step compare_segments strip_leading_zeros
    strcmp take_while drop_while is_alnum equal
rpmvercmp a b =
    let run : Ordering = elim (rpmvercmp_loop (suc (length a + length b)) a b) [
      | none ↦ Ordering.eq
      | some r ↦ r
    ] in
    if equal a b then Ordering.eq else run

pub record Evr : Type 0 where
  pub epoch : Bytes
  pub version : Bytes
  pub release : Bytes

-- The first part of `splitEVR`: the epoch, and `s` behind it.
unfoldable pub split_epoch : Bytes → Bytes × Bytes
unfolding index_byte
split_epoch s = elim (index_byte s b':') [
  | none ↦ (codes "0", s)
  | some i ↦ (if is_empty (take i s) then codes "0" else take i s, drop (suc i) s)
]

-- The second part: at the last dash.
unfoldable pub split_release : Bytes → Bytes → Evr
unfolding last_index_byte
split_release e s = elim (last_index_byte s b'-') [
  | none ↦ record { epoch = e; version = s; release = [] }
  | some i ↦ record { epoch = e; version = take i s; release = drop (suc i) s }
]

unfoldable pub split_evr : Bytes → Evr
unfolding split_epoch split_release
split_evr s = let (e, rest) = split_epoch s in split_release e rest

-- `none` is `ok == false`.
unfoldable pub compare_rpm : Bytes → Bytes → Option Ordering
unfolding split_evr
compare_rpm a b =
    let va = split_evr a in
    let vb = split_evr b in
    let versions = first_nonzero (rpmvercmp va.epoch vb.epoch) (
      first_nonzero (rpmvercmp va.version vb.version)
        (first_nonzero (rpmvercmp va.release vb.release) Ordering.eq)) in
    if is_empty a || is_empty b then none else some versions
