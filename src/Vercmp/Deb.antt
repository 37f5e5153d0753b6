-- ===== src/Vercmp/Deb.antt =====
-- internal/server/vercmp/deb.go: `compareDebian` and dpkg's `verrevcmp`. An index that only moves
-- forward through a string is the suffix that is left; moved past the end it is the empty suffix.
pub mod Parts
pub mod Loops
pub mod Weights
pub mod Refine
pub mod Laws
use bongsu.Prelude.{
  ℕ, zero, suc, ◌+◌, ◌^◌, Ordering, Bool, true, false, not, ◌&&◌, ◌||◌, Option, none, some, [], ◌∷◌,
  ltb, leb, ◌==◌, if◌then◌else◌, length, take, drop, drop_while, all_of, starts_with,
}
use bongsu.Prelude.Int.{ℤ, pos, negsuc, sub_ℕ, ◌-ℤ◌, eq_ℤ, compare_ℤ}
use bongsu.Prelude.Order.{first_nonzero}
use bongsu.Text.{Bytes, is_empty, codes}
use bongsu.Vercmp.Chars.{is_digit, is_alpha, index_byte, last_index_byte}
use bongsu.Vercmp.Digits.{value}

unfoldable pub sign : ℤ → Ordering
sign (negsuc n) = Ordering.lt
sign (pos zero) = Ordering.eq
sign (pos (suc n)) = Ordering.gt

unfoldable pub debian_order : ℕ → ℤ
unfolding is_alpha
debian_order c =
    if c == b'~'
    then negsuc 0
    else if c == 0
    then pos 0
    else if is_alpha c
    then pos c
    else pos (c + 256)

-- `i < len(a) && !isDigit(a[i])`
abbrev pub at_nondigit : Bytes → Bool
at_nondigit = starts_with (λ c. not (is_digit c))

-- `ca`: the weight at the cursor, that of byte 0 at a digit or at the end.
unfoldable pub weight : Bytes → ℤ
unfolding debian_order
weight [] = debian_order 0
weight (c ∷ s) = if is_digit c then debian_order 0 else debian_order c

-- A loop of `verrevcmp` has returned from the function, or has moved both cursors.
pub data Run : Type 0 where
  decided : Ordering → Run
  moved : Bytes → Bytes → Run

-- One round of the loop over non-digits; `next` is the rest of the loop from `i + 1`, `j + 1`.
unfoldable pub nondigit_step : Bytes → Bytes → Run → Run
unfolding weight sign ◌-ℤ◌
nondigit_step a b next =
    if at_nondigit a || at_nondigit b
    then if not (eq_ℤ (weight a) (weight b)) then decided (sign (weight a -ℤ weight b)) else next
    else moved a b

unfoldable pub nondigit_loop : Bytes → Bytes → Run
nondigit_loop [] [] = nondigit_step [] [] (moved [] [])
nondigit_loop [] (y ∷ b) = let next = nondigit_loop [] b in nondigit_step [] (y ∷ b) next
nondigit_loop (x ∷ a) [] = let next = nondigit_loop a [] in nondigit_step (x ∷ a) [] next
nondigit_loop (x ∷ a) (y ∷ b) = let next = nondigit_loop a b in nondigit_step (x ∷ a) (y ∷ b) next

-- The loop over digits with `firstDiff`, and the three tests behind it.
unfoldable pub digit_loop : ℤ → Bytes → Bytes → Run
unfolding sign
digit_loop first_diff (x ∷ a) (y ∷ b) =
    let next = digit_loop (if eq_ℤ first_diff (pos 0) then sub_ℕ x y else first_diff) a b in
    if is_digit x && is_digit y
    then next
    else if is_digit x
    then decided Ordering.gt
    else if is_digit y
    then decided Ordering.lt
    else if not (eq_ℤ first_diff (pos 0))
    then decided (sign first_diff)
    else moved (x ∷ a) (y ∷ b)
digit_loop first_diff a b =
    if starts_with is_digit a
    then decided Ordering.gt
    else if starts_with is_digit b
    then decided Ordering.lt
    else if not (eq_ℤ first_diff (pos 0))
    then decided (sign first_diff)
    else moved a b

abbrev pub is_zero_byte : ℕ → Bool
is_zero_byte c = c == b'0'

-- What follows the loop over non-digits in one round of the outer loop.
unfoldable pub digit_part : Run → Run
digit_part (decided r) = decided r
digit_part (moved a b) = digit_loop (pos 0) (drop_while is_zero_byte a) (drop_while is_zero_byte b)

-- One round of the outer loop.
unfoldable pub round : Bytes → Bytes → Run
round a b = digit_part (nondigit_loop a b)

-- The outer loop; `none` means that the fuel ran out.
unfoldable pub verrevcmp_loop : ℕ → Bytes → Bytes → Option Ordering
verrevcmp_loop zero a b = none
verrevcmp_loop (suc fuel) a b =
    let next : Option Ordering = elim (round a b) [
      | decided r ↦ some r
      | moved a' b' ↦ verrevcmp_loop fuel a' b'
    ] in
    if is_empty a && is_empty b then some Ordering.eq else next

-- The fuel is enough: `verrevcmp_loop_lem` in Deb/Refine.
unfoldable pub verrevcmp : Bytes → Bytes → Ordering
unfolding verrevcmp_loop round digit_part digit_loop nondigit_loop nondigit_step drop_while is_digit
verrevcmp a b = elim (verrevcmp_loop (suc (length a + length b)) a b) [
  | none ↦ Ordering.eq
  | some r ↦ r
]

-- `strconv.Atoi`: an optional sign and digits; `none` is an error, of syntax or of range.
unfoldable pub atoi_unsigned : Bytes → Option ℕ
unfolding is_digit
atoi_unsigned s = if not (is_empty s) && all_of is_digit s then some (value s) else none

abbrev in_range : Bool → Option ℕ → Option ℤ
in_range negative none = none
in_range true (some n) = if leb n (2 ^ 63) then some (sub_ℕ 0 n) else none
in_range false (some n) = if ltb n (2 ^ 63) then some (pos n) else none

unfoldable pub atoi : Bytes → Option ℤ
unfolding atoi_unsigned
atoi [] = none
atoi (c ∷ s) =
    if c == b'-'
    then in_range true (atoi_unsigned s)
    else if c == b'+'
    then in_range false (atoi_unsigned s)
    else in_range false (atoi_unsigned (c ∷ s))

pub record DebianVersion : Type 0 where
  pub epoch : ℤ
  pub upstream : Bytes
  pub revision : Bytes

-- The first part of `splitDebianVersion`: the epoch, and `v` behind it.
unfoldable pub split_epoch : Bytes → ℤ × Bytes
unfolding index_byte atoi
split_epoch v = elim (index_byte v b':') [
  | none ↦ (pos 0, v)
  | some i ↦ elim (atoi (take i v)) [ none ↦ (pos 0, v) | some e ↦ (e, drop (suc i) v) ]
]

-- The second part: at the last dash.
unfoldable pub split_revision : ℤ → Bytes → DebianVersion
unfolding last_index_byte
split_revision e v = elim (last_index_byte v b'-') [
  | none ↦ record { epoch = e; upstream = v; revision = codes "0" }
  | some i ↦ record { epoch = e; upstream = take i v; revision = drop (suc i) v }
]

unfoldable pub split_debian_version : Bytes → DebianVersion
unfolding split_epoch split_revision
split_debian_version v = let (e, rest) = split_epoch v in split_revision e rest

-- `none` is `ok == false`.
unfoldable pub compare_debian : Bytes → Bytes → Option Ordering
unfolding split_debian_version
compare_debian a b =
    let va = split_debian_version a in
    let vb = split_debian_version b in
    if is_empty a || is_empty b
    then none
    else if not (eq_ℤ va.epoch vb.epoch)
    then some (compare_ℤ va.epoch vb.epoch)
    else some
        (first_nonzero (verrevcmp va.upstream vb.upstream) (verrevcmp va.revision vb.revision))
