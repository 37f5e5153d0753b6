-- ===== src/Vercmp/Apk.antt =====
-- internal/server/vercmp/apk.go: `apkValid`, `apkCompare` and `compareAlpine` on the tokens that the
-- scanner gives.
pub mod Scanner
pub mod Scan
pub mod Order
pub mod Laws
pub mod Overflow
use bongsu.Prelude.{
  ℕ, zero, suc, ◌+◌, ◌-◌, ◌*◌, ◌%◌, ◌^◌, compare, Ordering, Bool, true, false, not, ◌&&◌, ◌||◌,
  Option, none, some, List, [], ◌∷◌, ltb, ◌==◌, if◌then◌else◌, length, take, drop, take_while,
  drop_while, starts_with,
}
use bongsu.Prelude.Order.{compare_padded}
use bongsu.Text.{Bytes, codes, within, is_empty, has_prefix}
use bongsu.Vercmp.Chars.{is_digit}
use bongsu.Vercmp.Apk.Scanner.{
  TokenType, end, digit_or_zero, digit, letter, suffix, suffix_no, revision, invalid, rank,
  apk_suffixes, apk_pre_release_count, ApkToken, ApkScanner, new_apk_scanner, word,
  sign_of_difference, is_lower_alpha, atoi_from, atoi_simple, after_number, after_letter,
  after_suffix_no, best_suffix, scan_suffix_name, Scanned, next_number, next_letter, next_suffix,
  next_suffix_no, next_revision, next_by, end_token, next, is_end, same_type,
}

-- The fuel of the loops over a scanner: `next` lowers this bound until the end (Apk/Scan).
abbrev pub bound : ApkScanner → ℕ
bound sc = 2 * length sc.unread + (if same_type sc.tok suffix_no then 1 else 0)

-- `none` means that the fuel ran out.
unfoldable pub apk_valid_loop : ℕ → ApkScanner → Option Bool
apk_valid_loop zero sc = none
apk_valid_loop (suc fuel) sc = elim (next sc) [
  | none ↦ some false
  | some (t, sc') ↦ let rest = apk_valid_loop fuel sc' in if is_end t.typ then some true else rest
]

unfoldable pub apk_valid : Bytes → Bool
unfolding apk_valid_loop
apk_valid s = elim (apk_valid_loop (suc (bound (new_apk_scanner s))) (new_apk_scanner s)) [
  | none ↦ false
  | some b ↦ b
]

-- The shorter run is filled up with '0'.
abbrev pub apk_compare_fraction : Bytes → Bytes → Ordering
apk_compare_fraction = compare_padded compare b'0'

unfoldable pub apk_compare_diff_types : ApkToken → ApkToken → Ordering
apk_compare_diff_types ta tb =
    if same_type ta.typ suffix && not (same_type tb.typ suffix)
    then if ltb ta.value apk_pre_release_count then Ordering.lt else Ordering.gt
    else if same_type tb.typ suffix && not (same_type ta.typ suffix)
    then if ltb tb.value apk_pre_release_count then Ordering.gt else Ordering.lt
    else compare (rank ta.typ) (rank tb.typ)

-- What one round of `apkCompare` finds on two tokens: a result, or (`none`) that it goes on.
unfoldable pub compare_tokens_in : TokenType → ApkToken → ApkToken → Option Ordering
compare_tokens_in end ta tb = some Ordering.eq
compare_tokens_in digit_or_zero ta tb = elim (apk_compare_fraction ta.digits tb.digits) [
  | Ordering.eq ↦ none
  | c ↦ some c
]
compare_tokens_in _ ta tb =
    if not (ta.value == tb.value) then some (sign_of_difference ta.value tb.value) else none

unfoldable pub compare_round : ApkToken → ApkToken → Option Ordering
compare_round ta tb =
    if not (same_type ta.typ tb.typ)
    then some (apk_compare_diff_types ta tb)
    else compare_tokens_in ta.typ ta tb

-- `none` means that the fuel ran out.
unfoldable pub apk_compare_loop : ℕ → ApkScanner → ApkScanner → Option Ordering
apk_compare_loop zero sa sb = none
apk_compare_loop (suc fuel) sa sb = elim (next sa) [
  | none ↦ some Ordering.eq
  | some (ta, sa') ↦ elim (next sb) [
    | none ↦ some Ordering.eq
    | some (tb, sb') ↦ elim (compare_round ta tb) [
      | some c ↦ some c
      | none ↦ apk_compare_loop fuel sa' sb'
    ]
  ]
]

unfoldable pub apk_compare : Bytes → Bytes → Ordering
unfolding apk_compare_loop compare_round compare_tokens_in apk_compare_diff_types sign_of_difference
apk_compare a b =
    elim (apk_compare_loop (suc (bound (new_apk_scanner a))) (new_apk_scanner a)
      (new_apk_scanner b)) [ none ↦ Ordering.eq | some c ↦ c ]

-- `none` is `ok == false`.
unfoldable pub compare_alpine : Bytes → Bytes → Option Ordering
compare_alpine a b =
    if is_empty a || is_empty b
    then none
    else if not (apk_valid a) || not (apk_valid b)
    then none
    else some (apk_compare a b)
