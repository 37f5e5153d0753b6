-- ===== src/Vercmp/Apk/Order.antt =====
-- The order of apk versions, stated on their tokens: by the class of the token, then by its digits
-- as a decimal fraction, then by its value. The end stands between the suffixes of a pre-release
-- and all other tokens. The tokens are those of the scanner, and fractions are compared by
-- `apk_compare_fraction`, both of the model of the code.
use bongsu.Prelude.{
  ℕ, ◌^◌, ◌<◌, compare, Ordering, ◌≡◌, ◌≢◌, refl, ◌∙◌, true, false, not, Option, none, some, List,
  [], arith, ltb, ◌==◌, if◌then◌else◌,
}
use bongsu.Prelude.Order.{
  first_nonzero, IsTotalPreorder, compare-IsTotalPreorder, on-IsTotalPreorder, then-IsTotalPreorder,
  compare_padded, compare_padded-IsTotalPreorder,
}
use bongsu.Text.{Bytes}
use bongsu.Vercmp.Apk.{
  apk_compare_fraction, apk_compare_diff_types, compare_tokens_in, compare_round,
}
use bongsu.Vercmp.Apk.Scanner.{
  TokenType, end, digit_or_zero, digit, letter, suffix, suffix_no, revision, invalid, ApkToken,
  end_token, sign_of_difference, apk_pre_release_count, is_end,
}

abbrev suffix_class : ℕ → ℕ
suffix_class value = if ltb value apk_pre_release_count then 0 else 8

abbrev pub class : TokenType → ℕ → ℕ
class suffix value = suffix_class value
class end value = 1
class digit_or_zero value = 2
class digit value = 3
class letter value = 4
class suffix_no value = 5
class revision value = 6
class invalid value = 7

abbrev pub token_class : ApkToken → ℕ
token_class t = class t.typ t.value

-- The digits of a group that begins with '0', and the value of any other token.
abbrev pub fraction_of : TokenType → Bytes → Bytes
fraction_of digit_or_zero digits = digits
fraction_of _ digits = []

abbrev pub number_of : TokenType → ℕ → ℕ
number_of digit_or_zero value = 0
number_of _ value = value

abbrev pub compare_apk_token : ApkToken → ApkToken → Ordering
compare_apk_token t u = first_nonzero (compare (token_class t) (token_class u)) (
    first_nonzero (apk_compare_fraction (fraction_of t.typ t.digits) (fraction_of u.typ u.digits))
      (compare (number_of t.typ t.value) (number_of u.typ u.value)))

abbrev pub compare_apk_tokens : List ApkToken → List ApkToken → Ordering
compare_apk_tokens = compare_padded compare_apk_token end_token

compare_apk_token-IsTotalPreorder : IsTotalPreorder compare_apk_token
compare_apk_token-IsTotalPreorder =
    then-IsTotalPreorder (on-IsTotalPreorder token_class compare-IsTotalPreorder) (
      then-IsTotalPreorder
        (on-IsTotalPreorder (λ (t : ApkToken). fraction_of t.typ t.digits)
          (compare_padded-IsTotalPreorder compare b'0' compare-IsTotalPreorder))
        (on-IsTotalPreorder (λ (t : ApkToken). number_of t.typ t.value) compare-IsTotalPreorder))

pub compare_apk_tokens-IsTotalPreorder : IsTotalPreorder compare_apk_tokens
compare_apk_tokens-IsTotalPreorder =
    compare_padded-IsTotalPreorder compare_apk_token end_token compare_apk_token-IsTotalPreorder

-- The difference of two values below 2 ^ 63 does not wrap around.
sign_of_difference_lem : (a b : ℕ) → a < 2 ^ 63 → b < 2 ^ 63 → sign_of_difference a b ≡ compare a b
unfolding sign_of_difference
sign_of_difference_lem a b h k = ground arith

-- A comparison that has been made, as `compareRound` returns it.
abbrev pub found : Ordering → Option Ordering
found Ordering.eq = none
found r = some r

-- Two values below 2 ^ 63, compared by `sign` of their difference where they differ.
value_round :
    (v w : ℕ)
    → v < 2 ^ 63
    → w < 2 ^ 63
    → (if not (v == w) then some (sign_of_difference v w) else none) ≡ found (compare v w)
value_round v w h k = rw (sign_of_difference_lem v w h k) (ground arith)

suffix_round :
    (v w : ℕ)
    → found (compare v w)
      ≡ found (first_nonzero (compare (suffix_class v) (suffix_class w)) (compare v w))
suffix_round v w = ground arith

fraction_round :
    (r : Ordering)
    → (let c : Option Ordering = elim r [ Ordering.eq ↦ none | c ↦ some c ] in
        c ≡ found (first_nonzero r Ordering.eq))
fraction_round r = ground arith

round_by_type :
    (t u : TokenType) (v w : ℕ) (ds es : Bytes)
    → v < 2 ^ 63
    → w < 2 ^ 63
    → is_end t ≡ false
    → compare_round
        (record { typ = t; value = v; digits = ds })
        (record { typ = u; value = w; digits = es })
      ≡ found (
          compare_apk_token
            (record { typ = t; value = v; digits = ds })
            (record { typ = u; value = w; digits = es }))
unfolding compare_round compare_tokens_in apk_compare_diff_types
round_by_type digit_or_zero digit_or_zero v w ds es h k e =
    fraction_round (apk_compare_fraction ds es)
round_by_type end u v w ds es h k e = cc
round_by_type digit digit v w ds es h k e = value_round v w h k
round_by_type letter letter v w ds es h k e = value_round v w h k
round_by_type suffix suffix v w ds es h k e = value_round v w h k ∙ suffix_round v w
round_by_type suffix_no suffix_no v w ds es h k e = value_round v w h k
round_by_type revision revision v w ds es h k e = value_round v w h k
round_by_type invalid invalid v w ds es h k e = value_round v w h k
round_by_type suffix _ v w ds es h k e = ground arith
round_by_type _ suffix v w ds es h k e = ground arith
round_by_type _ _ v w ds es h k e = refl

-- One round on two tokens of which the first is not the end compares them.
pub compare_round_lem :
    (ta tb : ApkToken)
    → ta.value < 2 ^ 63
    → tb.value < 2 ^ 63
    → is_end ta.typ ≡ false
    → compare_round ta tb ≡ found (compare_apk_token ta tb)
compare_round_lem ta tb = round_by_type ta.typ tb.typ ta.value tb.value ta.digits tb.digits

-- The end on one side only decides.
end_left :
    (t u : TokenType) (v w : ℕ) (ds es : Bytes)
    → is_end t ≡ true
    → is_end u ≡ false
    → (compare_round
          (record { typ = t; value = v; digits = ds })
          (record { typ = u; value = w; digits = es })
        ≡ found (compare_apk_token end_token (record { typ = u; value = w; digits = es })))
      × (compare_apk_token end_token (record { typ = u; value = w; digits = es }) ≢ Ordering.eq)
unfolding compare_round compare_tokens_in apk_compare_diff_types
end_left end suffix v w ds es h k = (ground arith, ground arith)
end_left end end v w ds es h k = cc
end_left end _ v w ds es h k = (refl, ground arith)
end_left _ u v w ds es h k = cc

end_right :
    (t u : TokenType) (v w : ℕ) (ds es : Bytes)
    → is_end t ≡ false
    → is_end u ≡ true
    → (compare_round
          (record { typ = t; value = v; digits = ds })
          (record { typ = u; value = w; digits = es })
        ≡ found (compare_apk_token (record { typ = t; value = v; digits = ds }) end_token))
      × (compare_apk_token (record { typ = t; value = v; digits = ds }) end_token ≢ Ordering.eq)
unfolding compare_round compare_tokens_in apk_compare_diff_types
end_right suffix end v w ds es h k = (ground arith, ground arith)
end_right end end v w ds es h k = cc
end_right _ end v w ds es h k = (refl, ground arith)
end_right _ u v w ds es h k = cc

end_both :
    (t u : TokenType) (v w : ℕ) (ds es : Bytes)
    → is_end t ≡ true
    → is_end u ≡ true
    → compare_round
        (record { typ = t; value = v; digits = ds })
        (record { typ = u; value = w; digits = es })
      ≡ some Ordering.eq
unfolding compare_round compare_tokens_in
end_both end end v w ds es h k = refl
end_both end _ v w ds es h k = cc
end_both _ u v w ds es h k = cc

module _ (ta tb : ApkToken) where
  pub compare_round-end_left :
      is_end ta.typ ≡ true
      → is_end tb.typ ≡ false
      → (compare_round ta tb ≡ found (compare_apk_token end_token tb))
        × (compare_apk_token end_token tb ≢ Ordering.eq)
  compare_round-end_left = end_left ta.typ tb.typ ta.value tb.value ta.digits tb.digits

  pub compare_round-end_right :
      is_end ta.typ ≡ false
      → is_end tb.typ ≡ true
      → (compare_round ta tb ≡ found (compare_apk_token ta end_token))
        × (compare_apk_token ta end_token ≢ Ordering.eq)
  compare_round-end_right = end_right ta.typ tb.typ ta.value tb.value ta.digits tb.digits

  pub compare_round-end_both :
      is_end ta.typ ≡ true → is_end tb.typ ≡ true → compare_round ta tb ≡ some Ordering.eq
  compare_round-end_both = end_both ta.typ tb.typ ta.value tb.value ta.digits tb.digits
