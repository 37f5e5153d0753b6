-- ===== src/Vercmp/Rpm/Runs.antt =====
-- The first token of a string, as the tests of `rpmvercmp` see it.
use bongsu.Prelude.{
  ℕ, ◌+◌, ◌≤◌, ◌≡◌, refl, sym, ap, subst, ==_iff, ◌∙◌, Bool, true, false, List, [], ◌∷◌, arith,
  ◌==◌, if◌then◌else◌, length, drop, take_while, drop_while, starts_with, length-drop_while-le,
  Bool-cases, inl, inr,
}
use bongsu.Prelude.Order.{head_or, rest}
use bongsu.Text.{Bytes, is_empty}
use bongsu.Vercmp.Chars.{is_digit, is_alpha, is_alnum}
use bongsu.Vercmp.Rpm.{is_separator, at_tilde, at_caret}
use bongsu.Vercmp.Rpm.Tokens.{
  Token, tilde, end, caret, letters, digits, token_cons, tokens, compare_token,
}

token_cons_separator :
    (c : ℕ) (s : Bytes) (ts : List Token) → is_separator c ≡ true → token_cons c s ts ≡ ts
unfolding token_cons is_alnum
token_cons_separator c s ts h = ground arith

pub tokens-skip : (s : Bytes) → tokens (drop_while is_separator s) ≡ tokens s
unfolding drop_while tokens
tokens-skip [] = refl
tokens-skip (c ∷ s) = elim (Bool-cases (is_separator c)) [
  | inl h ↦ rw h (tokens-skip s ∙ sym (token_cons_separator c s (tokens s) h))
  | inr h ↦ rw h
]

-- A digit is no other token's first byte, and a letter is none.
record StartsRun (p : ℕ → Bool) (c : ℕ) : Type 0 where
  not_tilde : (c == b'~') ≡ false
  not_caret : (c == b'^') ≡ false
  in_run : p c ≡ true

digit-StartsRun : (c : ℕ) → is_digit c ≡ true → StartsRun is_digit c
unfolding is_digit
digit-StartsRun c h = ground arith

module _ (c : ℕ) (s : Bytes) (r : StartsRun is_digit c) where
  token_cons_digit_first :
      (ts : List Token) → starts_with is_digit s ≡ false → token_cons c s ts ≡ digits (c ∷ []) ∷ ts
  unfolding token_cons
  token_cons_digit_first ts h = rw (r.not_tilde, r.not_caret, r.in_run, h)

  token_cons_digit_next :
      (d : Bytes) (ts : List Token)
      → starts_with is_digit s ≡ true
      → token_cons c s (digits d ∷ ts) ≡ digits (c ∷ d) ∷ ts
  unfolding token_cons
  token_cons_digit_next d ts h = rw (r.not_tilde, r.not_caret, r.in_run, h)

tokens_digits :
    (c : ℕ) (s : Bytes)
    → is_digit c ≡ true
    → tokens (c ∷ s) ≡ digits (c ∷ take_while is_digit s) ∷ tokens (drop_while is_digit s)
unfolding tokens take_while drop_while
tokens_digits c [] h = token_cons_digit_first c [] (digit-StartsRun c h) [] refl
tokens_digits c (d ∷ s) h = elim (Bool-cases (is_digit d)) [
  | inl k ↦
      ap (token_cons c (d ∷ s)) (tokens_digits d s k)
      ∙ rw k (token_cons_digit_next c (d ∷ s) (digit-StartsRun c h) _ _ k)
  | inr k ↦ rw k (token_cons_digit_first c (d ∷ s) (digit-StartsRun c h) _ k)
]

alpha_not_digit : (c : ℕ) → is_alpha c ≡ true → is_digit c ≡ false
unfolding is_digit is_alpha
alpha_not_digit c h = ground arith

digit_not_alpha : (c : ℕ) → is_digit c ≡ true → is_alpha c ≡ false
unfolding is_digit is_alpha
digit_not_alpha c h = ground arith

alpha-StartsRun : (c : ℕ) → is_alpha c ≡ true → StartsRun is_alpha c
unfolding is_alpha
alpha-StartsRun c h = ground arith

module _ (c : ℕ) (s : Bytes) (r : StartsRun is_alpha c) where
  token_cons_alpha_first :
      (ts : List Token) → starts_with is_alpha s ≡ false → token_cons c s ts ≡ letters (c ∷ []) ∷ ts
  unfolding token_cons
  token_cons_alpha_first ts h =
      rw (r.not_tilde, r.not_caret, alpha_not_digit c r.in_run, r.in_run, h)

  token_cons_alpha_next :
      (d : Bytes) (ts : List Token)
      → starts_with is_alpha s ≡ true
      → token_cons c s (letters d ∷ ts) ≡ letters (c ∷ d) ∷ ts
  unfolding token_cons
  token_cons_alpha_next d ts h =
      rw (r.not_tilde, r.not_caret, alpha_not_digit c r.in_run, r.in_run, h)

tokens_letters :
    (c : ℕ) (s : Bytes)
    → is_alpha c ≡ true
    → tokens (c ∷ s) ≡ letters (c ∷ take_while is_alpha s) ∷ tokens (drop_while is_alpha s)
unfolding tokens take_while drop_while
tokens_letters c [] h = token_cons_alpha_first c [] (alpha-StartsRun c h) [] refl
tokens_letters c (d ∷ s) h = elim (Bool-cases (is_alpha d)) [
  | inl k ↦
      ap (token_cons c (d ∷ s)) (tokens_letters d s k)
      ∙ rw k (token_cons_alpha_next c (d ∷ s) (alpha-StartsRun c h) _ _ k)
  | inr k ↦ rw k (token_cons_alpha_first c (d ∷ s) (alpha-StartsRun c h) _ k)
]

abbrev pub is_tilde : Token → Bool
is_tilde tilde = true
is_tilde _ = false

abbrev pub is_caret : Token → Bool
is_caret caret = true
is_caret _ = false

abbrev pub is_end : Token → Bool
is_end end = true
is_end _ = false

-- The bytes of a token, and the string behind it.
abbrev pub SplitsAt : Bytes → Token → Bytes → Type 0
SplitsAt a tilde r = drop 1 a ≡ r
SplitsAt a end r = (a ≡ []) × (r ≡ [])
SplitsAt a caret r = drop 1 a ≡ r
SplitsAt a (digits s) r =
    (starts_with is_digit a ≡ true)
    × (take_while is_digit a ≡ s)
    × (drop_while is_digit a ≡ r)
    × (take_while is_alpha a ≡ [])
    × (is_empty s ≡ false)
SplitsAt a (letters s) r =
    (starts_with is_digit a ≡ false)
    × (take_while is_alpha a ≡ s)
    × (drop_while is_alpha a ≡ r)
    × (take_while is_digit a ≡ [])
    × (is_empty s ≡ false)

-- A string begins with the token `t`, and goes on with `r`.
pub record Begins (a : Bytes) (t : Token) (r : Bytes) : Type 0 where
  pub head : head_or compare_token end (tokens a) ≡ t
  pub behind : rest compare_token end (tokens a) ≡ tokens r
  pub tilde_test : at_tilde a ≡ is_tilde t
  pub caret_test : at_caret a ≡ is_caret t
  pub empty_test : is_empty a ≡ is_end t
  pub splits : SplitsAt a t r
  pub shorter : length r + 1 ≤ length a + (if is_end t then 1 else 0)

Begins-end : Begins [] end []
unfolding tokens
Begins-end = record {
  head = refl;
  behind = refl;
  tilde_test = refl;
  caret_test = refl;
  empty_test = refl;
  splits = (refl, refl);
  shorter = omega arith;
}

Begins-tilde : (s : Bytes) → Begins (b'~' ∷ s) tilde s
unfolding tokens token_cons
Begins-tilde s = record {
  head = refl;
  behind = refl;
  tilde_test = refl;
  caret_test = refl;
  empty_test = refl;
  splits = refl;
  shorter = omega arith;
}

Begins-caret : (s : Bytes) → Begins (b'^' ∷ s) caret s
unfolding tokens token_cons
Begins-caret s = record {
  head = refl;
  behind = refl;
  tilde_test = refl;
  caret_test = refl;
  empty_test = refl;
  splits = refl;
  shorter = omega arith;
}

Begins-digits :
    (c : ℕ) (s : Bytes)
    → is_digit c ≡ true
    → Begins (c ∷ s) (digits (c ∷ take_while is_digit s)) (drop_while is_digit s)
Begins-digits c s h = record {
  head = rw (tokens_digits c s h);
  behind = rw (tokens_digits c s h);
  tilde_test = (digit-StartsRun c h).not_tilde;
  caret_test = (digit-StartsRun c h).not_caret;
  empty_test = refl;
  splits = unfold take_while drop_while in (h, rw h, rw h, rw (digit_not_alpha c h), refl);
  shorter = omega (arith, length-drop_while-le is_digit s);
}

Begins-letters :
    (c : ℕ) (s : Bytes)
    → is_alpha c ≡ true
    → Begins (c ∷ s) (letters (c ∷ take_while is_alpha s)) (drop_while is_alpha s)
Begins-letters c s h = record {
  head = rw (tokens_letters c s h);
  behind = rw (tokens_letters c s h);
  tilde_test = (alpha-StartsRun c h).not_tilde;
  caret_test = (alpha-StartsRun c h).not_caret;
  empty_test = refl;
  splits =
      unfold take_while drop_while in
      (alpha_not_digit c h, rw h, rw h, rw (alpha_not_digit c h), refl);
  shorter = omega (arith, length-drop_while-le is_alpha s);
}

-- Each string that does not begin with a separator begins with a token.
pub first_token :
    (a : Bytes) → starts_with is_separator a ≡ false → (t : Token) × (r : Bytes) × Begins a t r
first_token [] h = (end, [], Begins-end)
first_token (c ∷ s) h = elim (Bool-cases (c == b'~')) [
  | inl e ↦
      (tilde, s, subst (λ x. Begins (x ∷ s) tilde s) (sym ((==_iff c _).0 e)) (Begins-tilde s))
  | inr not_tilde ↦ elim (Bool-cases (c == b'^')) [
    | inl e ↦
        (caret, s, subst (λ x. Begins (x ∷ s) caret s) (sym ((==_iff c _).0 e)) (Begins-caret s))
    | inr not_caret ↦ elim (Bool-cases (is_digit c)) [
      | inl d ↦ (digits (c ∷ take_while is_digit s), drop_while is_digit s, Begins-digits c s d)
      | inr not_digit ↦ (
        letters (c ∷ take_while is_alpha s),
        drop_while is_alpha s,
        Begins-letters c s (unfold is_alnum in ground arith),
      )
    ]
  ]
]
