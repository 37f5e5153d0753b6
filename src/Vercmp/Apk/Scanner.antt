-- ===== src/Vercmp/Apk/Scanner.antt =====
-- internal/server/vercmp/apk.go: the token scanner. The field `pos` of a scanner is the suffix of the
-- string that is left. Go's `int` has 64 bits; a `value` is its bit pattern, a number below 2 ^ 64.
use bongsu.Prelude.{
  ℕ, suc, ◌+◌, ◌-◌, ◌*◌, ◌%◌, ◌^◌, Ordering, Bool, true, false, not, ◌&&◌, Option, none, some, List,
  [], ◌∷◌, ltb, ◌==◌, if◌then◌else◌, length, drop, take_while, drop_while, starts_with,
}
use bongsu.Text.{Bytes, codes, within, is_empty, has_prefix}
use bongsu.Vercmp.Chars.{is_digit}

pub data TokenType : Type 0 where
  end digit_or_zero digit letter suffix suffix_no revision invalid : TokenType

-- The value of the Go constant.
abbrev pub rank : TokenType → ℕ
rank end = 0
rank digit_or_zero = 1
rank digit = 2
rank letter = 3
rank suffix = 4
rank suffix_no = 5
rank revision = 6
rank invalid = 7

abbrev pub apk_suffixes : List Bytes
apk_suffixes =
    codes "alpha"
    ∷ codes "beta"
    ∷ codes "pre"
    ∷ codes "rc"
    ∷ codes "cvs"
    ∷ codes "svn"
    ∷ codes "git"
    ∷ codes "hg"
    ∷ codes "p"
    ∷ []

abbrev pub apk_pre_release_count : ℕ
apk_pre_release_count = 4

pub record ApkToken : Type 0 where
  pub typ : TokenType
  pub value : ℕ
  pub digits : Bytes

pub record ApkScanner : Type 0 where
  pub unread : Bytes
  pub tok : TokenType

abbrev pub new_apk_scanner : Bytes → ApkScanner
new_apk_scanner s = record { unread = s; tok = digit }

abbrev pub word : ℕ
word = 2 ^ 64

-- `sign(a - b)` of two 64-bit integers.
unfoldable pub sign_of_difference : ℕ → ℕ → Ordering
sign_of_difference a b =
    let d = (a + word - b) % word in
    if d == 0 then Ordering.eq else if ltb d (2 ^ 63) then Ordering.gt else Ordering.lt

unfoldable pub is_lower_alpha : ℕ → Bool
is_lower_alpha c = within b'a' b'z' c

unfoldable pub atoi_from : ℕ → Bytes → ℕ
atoi_from n [] = n
atoi_from n (c ∷ s) = atoi_from ((n * 10 + (c - b'0')) % word) s

abbrev pub atoi_simple : Bytes → ℕ
atoi_simple = atoi_from 0

-- The three functions return the token type expected next, and consume the separator.
unfoldable pub after_number : Bytes → ApkScanner
after_number [] = record { unread = []; tok = end }
after_number (c ∷ s) =
    if c == b'.'
    then record { unread = s; tok = digit }
    else if is_lower_alpha c
    then record { unread = c ∷ s; tok = letter }
    else if c == b'_'
    then record { unread = s; tok = suffix }
    else if c == b'-'
    then record { unread = s; tok = revision }
    else record { unread = c ∷ s; tok = invalid }

unfoldable pub after_letter : Bytes → ApkScanner
after_letter [] = record { unread = []; tok = end }
after_letter (c ∷ s) =
    if c == b'_'
    then record { unread = s; tok = suffix }
    else if c == b'-'
    then record { unread = s; tok = revision }
    else if c == b'.'
    then record { unread = s; tok = digit }
    else record { unread = c ∷ s; tok = invalid }

unfoldable pub after_suffix_no : Bytes → ApkScanner
after_suffix_no [] = record { unread = []; tok = end }
after_suffix_no (c ∷ s) =
    if c == b'_'
    then record { unread = s; tok = suffix }
    else if c == b'-'
    then record { unread = s; tok = revision }
    else if is_lower_alpha c
    then record { unread = c ∷ s; tok = letter }
    else record { unread = c ∷ s; tok = invalid }

-- The loop of `scanSuffixName`, with `bestIdx` and `bestLen`; an index -1 is `none`.
unfoldable pub best_suffix : Bytes → List Bytes → ℕ → Option ℕ → ℕ → Option ℕ × ℕ
best_suffix rest [] idx best_idx best_len = (best_idx, best_len)
best_suffix rest (name ∷ names) idx best_idx best_len =
    let better = ltb best_len (length name) && has_prefix rest name in
    best_suffix rest names (suc idx) (if better then some idx else best_idx)
      (if better then length name else best_len)

unfoldable pub scan_suffix_name : Bytes → Option (ℕ × Bytes)
unfolding best_suffix has_prefix
scan_suffix_name s =
    let (best_idx, best_len) = best_suffix s apk_suffixes 0 none 0 in
    elim best_idx [ none ↦ none | some idx ↦ some (idx, drop best_len s) ]

abbrev pub Scanned : Type 0
Scanned = Option (ApkToken × ApkScanner)

-- The cases of the switch in `next`, by `sc.tok`; `none` is a parse error.
unfoldable pub next_number : Bytes → Scanned
next_number s =
    let run = take_while is_digit s in
    let typ = if starts_with (λ c. c == b'0') run then digit_or_zero else digit in
    if is_empty run
    then none
    else some (
      record { typ = typ; value = atoi_simple run; digits = run },
      after_number (drop_while is_digit s),
    )

unfoldable pub next_letter : Bytes → Scanned
next_letter [] = none
next_letter (c ∷ s) =
    if not (is_lower_alpha c)
    then none
    else some (record { typ = letter; value = c; digits = [] }, after_letter s)

unfoldable pub next_suffix : Bytes → Scanned
next_suffix s = elim (scan_suffix_name s) [
  | none ↦ none
  | some (idx, rest) ↦
      some (
        record { typ = suffix; value = idx; digits = [] },
        record { unread = rest; tok = suffix_no },
      )
]

unfoldable pub next_suffix_no : Bytes → Scanned
next_suffix_no s = some (
  record { typ = suffix_no; value = atoi_simple (take_while is_digit s); digits = [] },
  after_suffix_no (drop_while is_digit s),
)

unfoldable pub next_revision : Bytes → Scanned
next_revision [] = none
next_revision (c ∷ s) =
    let run = take_while is_digit s in
    if not (c == b'r')
    then none
    else if is_empty run
    then none
    else some (
      record { typ = revision; value = atoi_simple run; digits = [] },
      record { unread = drop_while is_digit s; tok = end },
    )

unfoldable pub next_by : TokenType → Bytes → Scanned
next_by digit_or_zero s = next_number s
next_by digit s = next_number s
next_by letter s = next_letter s
next_by suffix s = next_suffix s
next_by suffix_no s = next_suffix_no s
next_by revision s = next_revision s
next_by _ s = none

abbrev pub end_token : ApkToken
end_token = record { typ = end; value = 0; digits = [] }

unfoldable pub next : ApkScanner → Scanned
next sc = if is_empty sc.unread then some (end_token, sc) else next_by sc.tok sc.unread

abbrev pub is_end : TokenType → Bool
is_end end = true
is_end _ = false

-- `typ ==` of two token types.
abbrev pub same_type : TokenType → TokenType → Bool
same_type t u = rank t == rank u
