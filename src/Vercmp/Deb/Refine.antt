-- ===== src/Vercmp/Deb/Refine.antt =====
-- `verrevcmp` against the order of Deb/Parts.
use bongsu.Prelude.{
  ℕ, zero, suc, ◌+◌, ◌≤◌, ◌<◌, compare, Ordering, ◌≡◌, refl, true, [], ◌∷◌, map, length, take_while,
  drop_while, arith, Bool-cases, Option, some, inl, inr, ◌∙◌, ap, all_of-drop_while,
  length-drop_while-le, all_of-take_while,
}
use bongsu.Prelude.Int.{pos}
use bongsu.Prelude.Order.{first_nonzero}
use bongsu.Text.{Bytes}
use bongsu.Vercmp.Chars.{is_digit}
use bongsu.Vercmp.Deb.{
  sign, Run, decided, moved, digit_part, round, verrevcmp_loop, verrevcmp, is_zero_byte,
}
use bongsu.Vercmp.Deb.Loops.{outcome, has_no_nul, nondigit_loop_lem, digit_loop_lem}
use bongsu.Vercmp.Deb.Parts.{
  place, compare_nondigits, is_nondigit, nondigits, from_digit, first_part, behind_part, parts_from,
  parts, no_part, compare_part, compare_parts,
}
use bongsu.Vercmp.Deb.Weights.{compare_weights_lem}
use bongsu.Vercmp.Digits.{
  value, strip_leading_zeros, compare_stripped, all_of-strip_leading_zeros,
  starts_with-strip_leading_zeros, value-strip_leading_zeros,
}

-- Zeros are digits: skipping them first does not change where the run ends.
take_while-drop_zeros :
    (s : Bytes)
    → take_while is_digit (drop_while is_zero_byte s) ≡ strip_leading_zeros (take_while is_digit s)
unfolding take_while drop_while strip_leading_zeros is_digit
take_while-drop_zeros [] = refl
take_while-drop_zeros (c ∷ s) = ground (arith, take_while-drop_zeros s)

drop_while-drop_zeros :
    (s : Bytes) → drop_while is_digit (drop_while is_zero_byte s) ≡ drop_while is_digit s
unfolding drop_while is_digit
drop_while-drop_zeros [] = refl
drop_while-drop_zeros (c ∷ s) = ground (arith, drop_while-drop_zeros s)

digit_part_lem :
    (a b : Bytes)
    → digit_part (moved a b)
      ≡ outcome
          (compare (value (take_while is_digit a)) (value (take_while is_digit b)))
          (drop_while is_digit a)
          (drop_while is_digit b)
unfolding digit_part sign
digit_part_lem a b =
    digit_loop_lem (drop_while is_zero_byte a) (drop_while is_zero_byte b) (pos 0)
    ∙ rw
        (take_while-drop_zeros, take_while-drop_zeros, drop_while-drop_zeros, drop_while-drop_zeros)
        (ap (λ r. outcome r (drop_while is_digit a) (drop_while is_digit b))
          (compare_stripped _ _ (all_of-strip_leading_zeros _ (all_of-take_while is_digit a))
              (all_of-strip_leading_zeros _ (all_of-take_while is_digit b))
              (starts_with-strip_leading_zeros (take_while is_digit a))
              (starts_with-strip_leading_zeros (take_while is_digit b))
            ∙ rw (value-strip_leading_zeros, value-strip_leading_zeros)))

has_no_nul-nondigits : (s : Bytes) → has_no_nul s ≡ true → has_no_nul (nondigits s) ≡ true
unfolding take_while
has_no_nul-nondigits [] h = refl
has_no_nul-nondigits (c ∷ s) h = ground (arith, has_no_nul-nondigits s, h)

round_lem :
    (a b : Bytes)
    → has_no_nul a ≡ true
    → has_no_nul b ≡ true
    → round a b
      ≡ outcome (compare_part (first_part a) (first_part b)) (behind_part a) (behind_part b)
unfolding round digit_part
round_lem a b p q =
    rw
      (
        nondigit_loop_lem a b p q,
        compare_weights_lem (nondigits a) (nondigits b) (has_no_nul-nondigits a p)
            (has_no_nul-nondigits b q),
      )
      (go (compare_nondigits (map place (nondigits a)) (map place (nondigits b))))
  where
    go :
        (r : Ordering)
        → digit_part (outcome r (from_digit a) (from_digit b))
          ≡ outcome
              (first_nonzero r (compare (first_part a).1 (first_part b).1))
              (behind_part a)
              (behind_part b)
    go Ordering.eq = digit_part_lem (from_digit a) (from_digit b)
    go Ordering.lt = refl
    go Ordering.gt = refl

-- A round takes at least one byte of a string that has not ended.
length-behind_part : (c : ℕ) (s : Bytes) → length (behind_part (c ∷ s)) ≤ length s
unfolding drop_while
length-behind_part c s = elim (Bool-cases (is_digit c)) [
  | inl d ↦ rw (d, d) (length-drop_while-le is_digit s)
  | inr n ↦ rw n (
      omega
        (arith, length-drop_while-le is_digit (from_digit s), length-drop_while-le is_nondigit s))
]

has_no_nul-behind_part : (s : Bytes) → has_no_nul s ≡ true → has_no_nul (behind_part s) ≡ true
has_no_nul-behind_part s h = all_of-drop_while _ is_digit _ (all_of-drop_while _ is_nondigit s h)

parts_from-nil : (n : ℕ) → parts_from n [] ≡ []
unfolding parts_from
parts_from-nil zero = refl
parts_from-nil (suc n) = refl

abbrev after_round : ℕ → Run → Option Ordering
after_round fuel run = elim run [ decided r ↦ some r | moved a b ↦ verrevcmp_loop fuel a b ]

round-then :
    (fuel : ℕ) (r : Ordering) (a b : Bytes) {c : Ordering}
    → verrevcmp_loop fuel a b ≡ some c
    → after_round fuel (outcome r a b) ≡ some (first_nonzero r c)
round-then fuel Ordering.eq a b h = h
round-then fuel _ a b h = refl

-- The outer loop of `verrevcmp` returns, on text without byte 0, with more fuel than the two
-- strings have bytes, and returns the comparison of the parts, whatever bounds at the lengths or
-- above the parts are computed with.
pub verrevcmp_loop_lem :
    (fuel m n : ℕ) (a b : Bytes)
    → has_no_nul a ≡ true
    → has_no_nul b ≡ true
    → length a + length b < fuel
    → length a ≤ m
    → length b ≤ n
    → verrevcmp_loop fuel a b ≡ some (compare_parts (parts_from m a) (parts_from n b))
unfolding verrevcmp_loop parts_from take_while drop_while
verrevcmp_loop_lem zero m n a b p q l la lb = absurd (omega arith)
verrevcmp_loop_lem (suc fuel) m n [] [] p q l la lb = rw (parts_from-nil m, parts_from-nil n)
verrevcmp_loop_lem (suc fuel) m zero [] (y ∷ b) p q l la lb = absurd (omega arith)
verrevcmp_loop_lem (suc fuel) m (suc n) [] (y ∷ b) p q l la lb =
    let ih =
      verrevcmp_loop_lem fuel m n [] (behind_part (y ∷ b)) p (has_no_nul-behind_part (y ∷ b) q)
        (omega (arith, length-behind_part y b)) (omega arith)
        (omega (arith, length-behind_part y b)) in
    rw (round_lem [] (y ∷ b) p q, parts_from-nil m)
      (round-then fuel (compare_part no_part (first_part (y ∷ b))) [] (behind_part (y ∷ b))
        (rw (parts_from-nil m) at ih))
verrevcmp_loop_lem (suc fuel) zero n (x ∷ a) b p q l la lb = absurd (omega arith)
verrevcmp_loop_lem (suc fuel) (suc m) n (x ∷ a) [] p q l la lb =
    let ih =
      verrevcmp_loop_lem fuel m n (behind_part (x ∷ a)) [] (has_no_nul-behind_part (x ∷ a) p) q
        (omega (arith, length-behind_part x a)) (omega (arith, length-behind_part x a))
        (omega arith) in
    rw (round_lem (x ∷ a) [] p q, parts_from-nil n)
      (round-then fuel (compare_part (first_part (x ∷ a)) no_part) (behind_part (x ∷ a)) []
        (rw (parts_from-nil n) at ih))
verrevcmp_loop_lem (suc fuel) (suc m) zero (x ∷ a) (y ∷ b) p q l la lb = absurd (omega arith)
verrevcmp_loop_lem (suc fuel) (suc m) (suc n) (x ∷ a) (y ∷ b) p q l la lb =
    let ih =
      verrevcmp_loop_lem fuel m n (behind_part (x ∷ a)) (behind_part (y ∷ b))
        (has_no_nul-behind_part (x ∷ a) p) (has_no_nul-behind_part (y ∷ b) q)
        (omega (arith, length-behind_part x a, length-behind_part y b))
        (omega (arith, length-behind_part x a)) (omega (arith, length-behind_part y b)) in
    rw (round_lem (x ∷ a) (y ∷ b) p q) (
      round-then fuel (compare_part (first_part (x ∷ a)) (first_part (y ∷ b))) (behind_part (x ∷ a))
        (behind_part (y ∷ b)) ih)

-- On text without byte 0, `verrevcmp` compares the parts of its arguments, pairs of a run of
-- non-digits and a number, as deb-version(5) says: a tilde sorts before the end of a run, the end
-- before a letter, and a letter before any other character.
pub verrevcmp_lem :
    (a b : Bytes)
    → has_no_nul a ≡ true
    → has_no_nul b ≡ true
    → verrevcmp a b ≡ compare_parts (parts a) (parts b)
unfolding verrevcmp parts
verrevcmp_lem a b p q =
    let run =
      verrevcmp_loop_lem (suc (length a + length b)) (length a) (length b) a b p q (omega arith)
        (omega arith) (omega arith) in
    rw (run, verrevcmp)
