-- ===== src/Vercmp/Apk/Overflow.antt =====
-- `atoiSimple` keeps 64 bits: versions that are plain numbers, of any length.
use bongsu.Prelude.{
  ℕ, suc, ◌+◌, ◌-◌, ◌*◌, ◌%◌, ◌≡◌, refl, ◌∙◌, ap, sym, subst, true, false, some, [], ◌∷◌, arith,
  ◌==◌, starts_with, all_of, take_while, drop_while, Bool-cases, inl, inr,
}
use bongsu.Text.{Bytes, is_empty}
use bongsu.Vercmp.Chars.{is_digit}
use bongsu.Vercmp.Digits.{value, value_from}
use bongsu.Vercmp.Apk.{
  compare_tokens_in, compare_round, apk_compare_loop, apk_compare, apk_valid, apk_valid_loop,
  compare_alpine, bound,
}
use bongsu.Vercmp.Apk.Scanner.{
  ApkToken, ApkScanner, digit, end, word, sign_of_difference, atoi_from, atoi_simple, after_number,
  next_number, next_by, next, new_apk_scanner,
}

mod_step : (n d : ℕ) → ((n % word) * 10 + d) % word ≡ (n * 10 + d) % word
mod_step n d = omega arith

atoi_from_lem : (s : Bytes) (n : ℕ) → atoi_from (n % word) s ≡ value_from n s % word
unfolding atoi_from
atoi_from_lem [] n = refl
atoi_from_lem (c ∷ s) n =
    ap (λ m. atoi_from m s) (mod_step n (c - b'0')) ∙ atoi_from_lem s (n * 10 + (c - b'0'))

-- The low 64 bits of the number.
pub atoi_simple_lem : (s : Bytes) → atoi_simple s ≡ value s % word
atoi_simple_lem s = atoi_from_lem s 0

-- A decimal number with no leading zero.
pub record IsNumber (s : Bytes) : Type 0 where
  pub non_empty : is_empty s ≡ false
  pub digits : all_of is_digit s ≡ true
  pub no_zero : starts_with (λ c. c == b'0') s ≡ false

take_while-all : (s : Bytes) → all_of is_digit s ≡ true → take_while is_digit s ≡ s
unfolding take_while
take_while-all [] h = refl
take_while-all (c ∷ s) h = ground (arith, take_while-all s)

drop_while-all : (s : Bytes) → all_of is_digit s ≡ true → drop_while is_digit s ≡ []
unfolding drop_while
drop_while-all [] h = refl
drop_while-all (c ∷ s) h = ground (arith, drop_while-all s)

abbrev number_token : Bytes → ApkToken
number_token s = record { typ = digit; value = value s % word; digits = s }

abbrev finished : ApkScanner
finished = record { unread = []; tok = end }

next-IsNumber :
    (s : Bytes) → IsNumber s → next (new_apk_scanner s) ≡ some (number_token s, finished)
unfolding next next_by next_number after_number
next-IsNumber s n =
    rw (n.non_empty, take_while-all s n.digits, drop_while-all s n.digits, n.no_zero, n.non_empty)
      (rw (atoi_simple_lem s))

valid_loop_lem :
    (s : Bytes) (k : ℕ) → IsNumber s → apk_valid_loop (suc (suc k)) (new_apk_scanner s) ≡ some true
unfolding apk_valid_loop next
valid_loop_lem s k n = rw (next-IsNumber s n, apk_valid_loop)

compare_loop_lem :
    (a b : Bytes) (k : ℕ)
    → IsNumber a
    → IsNumber b
    → apk_compare_loop (suc (suc k)) (new_apk_scanner a) (new_apk_scanner b)
      ≡ some (sign_of_difference (value a % word) (value b % word))
unfolding apk_compare_loop next compare_round compare_tokens_in
compare_loop_lem a b k m n =
    rw (next-IsNumber a m, next-IsNumber b n, apk_compare_loop)
      (elim (Bool-cases (value a % word == value b % word)) [
        | inl e ↦ rw e (unfold sign_of_difference in ground arith)
        | inr d ↦ rw d
      ])

-- There is fuel for the number and for the end.
bound-suc :
    (s : Bytes) → IsNumber s → bound (new_apk_scanner s) ≡ suc (bound (new_apk_scanner s) - 1)
bound-suc [] n = cc (n.non_empty)
bound-suc (c ∷ s) n = omega arith

apk_valid-IsNumber : (s : Bytes) → IsNumber s → apk_valid s ≡ true
unfolding apk_valid
apk_valid-IsNumber s n =
    let run =
      subst (λ f. apk_valid_loop (suc f) (new_apk_scanner s) ≡ some true) (sym (bound-suc s n))
        (valid_loop_lem s (bound (new_apk_scanner s) - 1) n) in
    rw (run, apk_valid)

apk_compare-IsNumber :
    (a b : Bytes)
    → IsNumber a
    → IsNumber b
    → apk_compare a b ≡ sign_of_difference (value a % word) (value b % word)
unfolding apk_compare
apk_compare-IsNumber a b m n =
    let run =
      subst
        (λ f.
          apk_compare_loop (suc f) (new_apk_scanner a) (new_apk_scanner b)
          ≡ some (sign_of_difference (value a % word) (value b % word)))
        (sym (bound-suc a m)) (compare_loop_lem a b (bound (new_apk_scanner a) - 1) m n) in
    rw (run, apk_compare)

-- Plain numbers with no leading zero (`IsNumber`) are compared by `compareAlpine` by the sign of
-- the 64-bit difference of their low 64 bits.
pub compare_alpine-IsNumber :
    (a b : Bytes)
    → IsNumber a
    → IsNumber b
    → compare_alpine a b ≡ some (sign_of_difference (value a % word) (value b % word))
unfolding compare_alpine
compare_alpine-IsNumber a b m n =
    rw (m.non_empty, n.non_empty, apk_valid-IsNumber a m, apk_valid-IsNumber b n)
      (rw (apk_compare-IsNumber a b m n))
