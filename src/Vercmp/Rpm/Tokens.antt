-- ===== src/Vercmp/Rpm/Tokens.antt =====
-- The order of RPM versions: a string is a sequence of tokens, and two strings are compared token
-- by token. A tilde is older than the end, which is older than a caret, which is older than letters,
-- which are older than a number. It shares with the model of the code the byte tests and the number
-- that digits stand for.
use bongsu.Prelude.{
  ℕ, compare, Ordering, ◌≡◌, List, [], ◌∷◌, arith, ◌==◌, if◌then◌else◌, starts_with,
}
use bongsu.Prelude.Order.{
  opposite, Chains, IsTotalPreorder, compare-IsTotalPreorder, compare_padded,
  compare_padded-IsTotalPreorder,
}
use bongsu.Text.{Bytes}
use bongsu.Vercmp.Chars.{is_digit, is_alpha}
use bongsu.Vercmp.Digits.{value, strcmp, strcmp-IsTotalPreorder}

pub data Token : Type 0 where
  tilde : Token
  end : Token
  caret : Token
  letters : Bytes → Token
  digits : Bytes → Token

-- A byte put in front of the run that the tokens begin with.
unfoldable pub extend : ℕ → List Token → List Token
extend c (digits s ∷ ts) = digits (c ∷ s) ∷ ts
extend c (letters s ∷ ts) = letters (c ∷ s) ∷ ts
extend c ts = ts

-- The tokens of `c ∷ s`, from those of `s`. Separators stand between runs and mean nothing else.
unfoldable pub token_cons : ℕ → Bytes → List Token → List Token
unfolding extend
token_cons c s rest =
    if c == b'~'
    then tilde ∷ rest
    else if c == b'^'
    then caret ∷ rest
    else if is_digit c
    then if starts_with is_digit s then extend c rest else digits (c ∷ []) ∷ rest
    else if is_alpha c
    then if starts_with is_alpha s then extend c rest else letters (c ∷ []) ∷ rest
    else rest

unfoldable pub tokens : Bytes → List Token
tokens [] = []
tokens (c ∷ s) = token_cons c s (tokens s)

abbrev pub rank : Token → ℕ
rank tilde = 0
rank end = 1
rank caret = 2
rank (letters s) = 3
rank (digits s) = 4

-- Letters as `strcmp` orders them, digits by the number that they denote.
abbrev pub compare_token : Token → Token → Ordering
compare_token (letters s) (letters t) = strcmp s t
compare_token (digits s) (digits t) = compare (value s) (value t)
compare_token s t = compare (rank s) (rank t)

-- A sequence that has ended goes on with `end`.
abbrev pub compare_tokens : List Token → List Token → Ordering
compare_tokens = compare_padded compare_token end

compare_token-flip : (s t : Token) → compare_token t s ≡ opposite (compare_token s t)
compare_token-flip (letters s) (letters t) = strcmp-IsTotalPreorder.flip s t
compare_token-flip (digits s) (digits t) = compare-IsTotalPreorder.flip (value s) (value t)
compare_token-flip _ _ = ground arith

compare_token-chain :
    (s t u : Token) → Chains (compare_token s t) (compare_token t u) (compare_token s u)
compare_token-chain (letters s) (letters t) (letters u) = strcmp-IsTotalPreorder.chain s t u
compare_token-chain (digits s) (digits t) (digits u) =
    compare-IsTotalPreorder.chain (value s) (value t) (value u)
compare_token-chain _ _ _ = ground arith

pub compare_tokens-IsTotalPreorder : IsTotalPreorder compare_tokens
compare_tokens-IsTotalPreorder =
    compare_padded-IsTotalPreorder compare_token end
      (record { flip = compare_token-flip; chain = compare_token-chain })
