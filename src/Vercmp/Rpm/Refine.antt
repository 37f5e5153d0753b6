-- ===== src/Vercmp/Rpm/Refine.antt =====
-- `rpmvercmp` against the order of Rpm/Tokens.
use bongsu.Prelude.{
  ℕ, zero, suc, ◌+◌, ◌<◌, Ordering, ◌≡◌, refl, sym, ap, subst₂, ◌∙◌, true, false, ◌&&◌, Option,
  some, [], arith, length, drop_while, starts_with-drop_while, length-drop_while-le,
  all_of-take_while, Bool-cases, inl, inr,
}
use bongsu.Prelude.Order.{first_nonzero, self_eq, compare_padded_step}
use bongsu.Text.{Bytes, is_empty, equal, equal_iff}
use bongsu.Vercmp.Chars.{is_digit}
use bongsu.Vercmp.Digits.{strcmp, compare_num_str, compare_num_str_lem}
use bongsu.Vercmp.Rpm.{
  Step, decided, continue, broken, is_separator, compare_segments, segment_step, token_step, step,
  leftover, rpmvercmp_loop, rpmvercmp,
}
use bongsu.Vercmp.Rpm.Runs.{Begins, first_token, tokens-skip}
use bongsu.Vercmp.Rpm.Tokens.{
  Token, tilde, end, caret, letters, digits, tokens, compare_token, compare_tokens,
  compare_tokens-IsTotalPreorder,
}

abbrev after : ℕ → Step → Option Ordering
after fuel s = elim s [
  | decided r ↦ some r
  | continue a b ↦ rpmvercmp_loop fuel a b
  | broken a b ↦ some (leftover a b)
]

-- A round decides by the first tokens, or goes on behind them.
abbrev pub advance : Ordering → Bytes → Bytes → Step
advance Ordering.eq a b = continue a b
advance r a b = decided r

segments_num :
    (s t a b : Bytes)
    → is_empty t ≡ false
    → compare_segments true s t a b ≡ advance (compare_num_str s t) a b
unfolding compare_segments compare_num_str
segments_num s t a b h = rw h (ground arith)

segments_alpha :
    (s t a b : Bytes)
    → is_empty t ≡ false
    → compare_segments false s t a b ≡ advance (strcmp s t) a b
unfolding compare_segments
segments_alpha s t a b h = rw h (ground arith)

segment_step_digits :
    {a b ra rb : Bytes} (s t : Bytes)
    → Begins a (digits s) ra
    → Begins b (digits t) rb
    → segment_step a b ≡ advance (compare_num_str s t) ra rb
unfolding segment_step
segment_step_digits s t p q =
    let (da, ta, ea, _, _) = p.splits in
    let (db, tb, eb, _, ne) = q.splits in rw (da, ta, ea, tb, eb) (segments_num s t _ _ ne)

segment_step_letters :
    {a b ra rb : Bytes} (s t : Bytes)
    → Begins a (letters s) ra
    → Begins b (letters t) rb
    → segment_step a b ≡ advance (strcmp s t) ra rb
unfolding segment_step
segment_step_letters s t p q =
    let (da, ta, ea, _, _) = p.splits in
    let (db, tb, eb, _, ne) = q.splits in rw (da, ta, ea, tb, eb) (segments_alpha s t _ _ ne)

segment_step_mixed :
    {a b ra rb : Bytes} (s t : Bytes)
    → Begins a (digits s) ra
    → Begins b (letters t) rb
    → segment_step a b ≡ decided Ordering.gt
unfolding segment_step compare_segments
segment_step_mixed s t p q =
    let (da, ta, ea, _, _) = p.splits in let (db, tb, eb, none_b, ne) = q.splits in rw (da, none_b)

segment_step_mixed' :
    {a b ra rb : Bytes} (s t : Bytes)
    → Begins a (letters s) ra
    → Begins b (digits t) rb
    → segment_step a b ≡ decided Ordering.lt
unfolding segment_step compare_segments
segment_step_mixed' s t p q =
    let (da, ta, ea, _, _) = p.splits in let (db, tb, eb, none_b, ne) = q.splits in rw (da, none_b)

-- Where not both have ended, one round compares the first tokens.
token_step_lem :
    (fuel : ℕ) (a b ra rb : Bytes) (s t : Token)
    → Begins a s ra
    → Begins b t rb
    → (is_empty a && is_empty b) ≡ false
    → after fuel (token_step a b) ≡ after fuel (advance (compare_token s t) ra rb)
unfolding token_step leftover
token_step_lem fuel a b ra rb tilde tilde p q h =
    simp (p.tilde_test, q.tilde_test, p.splits, q.splits)
token_step_lem fuel a b ra rb end end p q h = cc (h, p.empty_test, q.empty_test)
token_step_lem fuel a b ra rb caret caret p q h = simp (
  p.tilde_test, q.tilde_test, p.caret_test, q.caret_test, p.empty_test, q.empty_test, p.splits,
  q.splits,
)
token_step_lem fuel a b ra rb (digits s) (digits t) p q h =
    simp (p.tilde_test, q.tilde_test, p.caret_test, q.caret_test, p.empty_test, q.empty_test)
      (rw (segment_step_digits s t p q) (
        rw (
          compare_num_str_lem s t (rw p.splits.1 at (all_of-take_while is_digit a))
            (rw q.splits.1 at (all_of-take_while is_digit b)))))
token_step_lem fuel a b ra rb (letters s) (letters t) p q h =
    simp (p.tilde_test, q.tilde_test, p.caret_test, q.caret_test, p.empty_test, q.empty_test)
      (rw (segment_step_letters s t p q))
token_step_lem fuel a b ra rb (letters s) (digits t) p q h =
    simp (p.tilde_test, q.tilde_test, p.caret_test, q.caret_test, p.empty_test, q.empty_test)
      (rw (segment_step_mixed' s t p q))
token_step_lem fuel a b ra rb (digits s) (letters t) p q h =
    simp (p.tilde_test, q.tilde_test, p.caret_test, q.caret_test, p.empty_test, q.empty_test)
      (rw (segment_step_mixed s t p q))
token_step_lem fuel a b ra rb _ _ p q h =
    simp (p.tilde_test, q.tilde_test, p.caret_test, q.caret_test, p.empty_test, q.empty_test)

advance-then :
    (fuel : ℕ) (r : Ordering) (a b : Bytes) {c : Ordering}
    → rpmvercmp_loop fuel a b ≡ some c
    → after fuel (advance r a b) ≡ some (first_nonzero r c)
advance-then fuel Ordering.eq a b h = h
advance-then fuel _ a b h = refl

-- From behind the separators, the first tokens decide, or what follows them.
compare_tokens-Begins :
    {a b ra rb : Bytes} (s t : Token)
    → Begins a s ra
    → Begins b t rb
    → compare_tokens (tokens a) (tokens b)
      ≡ first_nonzero (compare_token s t) (compare_tokens (tokens ra) (tokens rb))
compare_tokens-Begins {a} {b} s t p q =
    compare_padded_step compare_token end (tokens a) (tokens b) refl
    ∙ rw (p.head, q.head, p.behind, q.behind)

both_empty : (a b : Bytes) → (is_empty a && is_empty b) ≡ true → (a ≡ []) × (b ≡ [])
both_empty [] [] h = (refl, refl)
both_empty _ _ h = cc

Begins-shrinks :
    (fuel : ℕ) {a b ra rb : Bytes} (s t : Token)
    → Begins a s ra
    → Begins b t rb
    → (is_empty a && is_empty b) ≡ false
    → length a + length b < suc fuel
    → length ra + length rb < fuel
Begins-shrinks fuel s t p q h l = ground (arith, p.shorter, q.shorter, p.empty_test, q.empty_test)

token_step_ended :
    (fuel : ℕ) (a b : Bytes)
    → (is_empty a && is_empty b) ≡ true
    → after fuel (token_step a b) ≡ some (compare_tokens (tokens a) (tokens b))
token_step_ended fuel a b e =
    let (ea, eb) = both_empty a b e in
    subst₂ (λ x y. after fuel (token_step x y) ≡ some (compare_tokens (tokens x) (tokens y)))
      (sym ea) (sym eb) (unfold tokens token_step leftover in refl)

-- The loop of `rpmvercmp` returns with more fuel than the two strings have bytes, and returns the
-- comparison of the tokens.
pub rpmvercmp_loop_lem :
    (fuel : ℕ) (a b : Bytes)
    → length a + length b < fuel
    → rpmvercmp_loop fuel a b ≡ some (compare_tokens (tokens a) (tokens b))
unfolding rpmvercmp_loop step
rpmvercmp_loop_lem zero a b l = absurd (omega arith)
rpmvercmp_loop_lem (suc fuel) a b l = elim (Bool-cases (is_empty a && is_empty b)) [
  | inl e ↦
      let (ea, eb) = both_empty a b e in
      subst₂ (λ x y. rpmvercmp_loop (suc fuel) x y ≡ some (compare_tokens (tokens x) (tokens y)))
        (sym ea) (sym eb) (unfold tokens leftover in refl)
  | inr ne ↦ rw ne (
      let a' = drop_while is_separator a in
      let b' = drop_while is_separator b in
      let (s, ra, p) = first_token a' (starts_with-drop_while is_separator a) in
      let (t, rb, q) = first_token b' (starts_with-drop_while is_separator b) in
      let skipped : compare_tokens (tokens a') (tokens b') ≡ compare_tokens (tokens a) (tokens b) =
        rw (tokens-skip, tokens-skip) in
      elim (Bool-cases (is_empty a' && is_empty b')) [
        | inl e ↦ token_step_ended fuel a' b' e ∙ ap some skipped
        | inr left ↦
            let shorter = Begins-shrinks fuel s t p q left (
              omega (
                arith,
                length-drop_while-le is_separator a,
                length-drop_while-le is_separator b,
              )) in
            token_step_lem fuel a' b' ra rb s t p q left
            ∙ advance-then fuel (compare_token s t) ra rb (rpmvercmp_loop_lem fuel ra rb shorter)
            ∙ ap some (sym (compare_tokens-Begins s t p q) ∙ skipped)
      ])
]

-- `rpmvercmp` compares the token sequences of its arguments, on all input.
pub rpmvercmp_lem : (a b : Bytes) → rpmvercmp a b ≡ compare_tokens (tokens a) (tokens b)
unfolding rpmvercmp
rpmvercmp_lem a b = elim (Bool-cases (equal a b)) [
  | inl same ↦
      rw (same, rpmvercmp)
        (rw (sym ((equal_iff a b).0 same))
          (sym (self_eq compare_tokens-IsTotalPreorder (tokens a))))
  | inr different ↦
      let run = rpmvercmp_loop_lem (suc (length a + length b)) a b (omega arith) in
      rw (different, run, rpmvercmp)
]
