-- ===== src/Reporter/Laws.antt =====
-- How often the agent asks, and with what result.
use bongsu.Prelude.{
  ℕ, zero, suc, ◌+◌, ◌≤◌, ◌<◌, ◌≡◌, refl, Bool, true, false, not, Option, none, some, arith, length,
  Bool-cases, inl, inr, ◌⊎◌, ◌==◌, ==_iff,
}
use bongsu.Prelude.Int.{ℤ, pos}
use bongsu.Prelude.Result.{ok, err}
use bongsu.Text.{Bytes}
use bongsu.Reporter.{RetryConfig, should_retry_http}
use bongsu.Reporter.Calls.{
  Response, Attempt, LastError, no_error, after_attempts, Run, again, done, judge, retry_loop,
  do_with_retry, retry_delay,
}

-- An answer that is not asked for again: the server's, with a status other than 429 and below 500.
abbrev pub is_final : Attempt → Bool
is_final (err e) = false
is_final (ok resp) = not (should_retry_http resp.status_code)

-- The first final answer among the attempts from `k` up to `n`, not included, is the result.
pub record IsAnswered (attempt : ℕ → Attempt) (k n : ℕ) (r : Run) : Type 0 where
  pub at : ℕ
  pub resp : Response
  pub in_time : (k ≤ at) × (at < n)
  pub answer : attempt at ≡ ok resp
  pub final : is_final (attempt at) ≡ true
  pub first : (j : ℕ) → k ≤ j → j < at → is_final (attempt j) ≡ false
  pub result : r.result ≡ ok resp
  pub calls : r.calls ≡ suc at

-- No attempt is final.
pub record IsExhausted (attempt : ℕ → Attempt) (k n top : ℕ) (r : Run) : Type 0 where
  pub none_final : (j : ℕ) → k ≤ j → j < n → is_final (attempt j) ≡ false
  pub last : LastError
  pub result : r.result ≡ err (after_attempts top last)
  pub calls : r.calls ≡ n

module _ (parse_time : Bytes → Option ℕ) (now : ℕ → ℕ) (random : ℕ → ℕ → ℕ)
    (config : RetryConfig) where
  -- An attempt that is final ends the loop, and any other is followed by the next.
  pub judged :
      (k : ℕ) (a : Attempt)
      → ((resp : Response) × (a ≡ ok resp)
          × (is_final a ≡ true)
          × (judge parse_time now random config k a ≡ done resp))
        ⊎ ((delay : ℤ) × (e : LastError) × (is_final a ≡ false)
            × (judge parse_time now random config k a ≡ again delay e))
  unfolding judge
  judged k (err e) =
      inr (retry_delay parse_time now random config (suc k) none, LastError.network e, refl, refl)
  judged k (ok resp) = elim (Bool-cases (should_retry_http resp.status_code)) [
    | inl retry ↦ inr (
      retry_delay parse_time now random config (suc k) (some resp),
      LastError.returned resp.status_code,
      rw retry refl,
      rw retry refl,
    )
    | inr final ↦ inl (resp, refl, rw final refl, rw final refl)
  ]

  from_next :
      (attempt : ℕ → Attempt) (k : ℕ)
      → is_final (attempt k) ≡ false
      → (m : ℕ) → ((j : ℕ) → suc k ≤ j → j < m → is_final (attempt j) ≡ false)
      → (j : ℕ) → k ≤ j
      → j < m
      → is_final (attempt j) ≡ false
  from_next attempt k here m later j h l = elim (Bool-cases (j == k)) [
    | inl same ↦ rw ((==_iff j k).0 same) here
    | inr other ↦ later j (ground (arith, h, other)) l
  ]

  retry_loop_lem :
      (attempt : ℕ → Attempt) (left k n : ℕ) (delay : ℤ) (last : LastError)
      → k + left ≡ n
      → IsAnswered attempt k n (retry_loop parse_time now random config attempt left k delay last)
        ⊎ IsExhausted attempt k n config.max_attempts
            (retry_loop parse_time now random config attempt left k delay last)
  unfolding retry_loop
  retry_loop_lem attempt zero k n delay last s = inr record {
    none_final = λ j h l. absurd (omega (arith, h, l, s));
    last = last;
    result = refl;
    calls = omega (arith, s);
  }
  retry_loop_lem attempt (suc left) k n delay last s = elim (judged k (attempt k)) [
    | inl (resp, answer, final, stops) ↦ rw stops (
        inl record {
          at = k;
          resp = resp;
          in_time = (omega arith, omega (arith, s));
          answer = answer;
          final = final;
          first = λ j h l. absurd (omega (arith, h, l));
          result = refl;
          calls = refl;
        })
    | inr (next_delay, e, more, goes_on) ↦
        rw goes_on (elim (retry_loop_lem attempt left (suc k) n next_delay e (omega (arith, s))) [
          | inl a ↦ inl record {
            at = a.at;
            resp = a.resp;
            in_time = (omega (arith, a.in_time.0), omega (arith, a.in_time.1));
            answer = a.answer;
            final = a.final;
            first = from_next attempt k more a.at a.first;
            result = a.result;
            calls = a.calls;
          }
          | inr x ↦ inr record {
            none_final = from_next attempt k more n x.none_final;
            last = x.last;
            result = x.result;
            calls = x.calls;
          }
        ])
  ]

  -- One sleep before each attempt but the first.
  slept_later :
      (attempt : ℕ → Attempt) (left k : ℕ) (delay : ℤ) (last : LastError)
      → (let r = retry_loop parse_time now random config attempt left (suc k) delay last in
          length r.slept + suc k ≡ r.calls)
  unfolding retry_loop
  slept_later attempt zero k delay last = omega arith
  slept_later attempt (suc left) k delay last = elim (judged (suc k) (attempt (suc k))) [
    | inl (resp, answer, final, stops) ↦ rw stops omega arith
    | inr (next_delay, e, more, goes_on) ↦
        rw goes_on omega (arith, slept_later attempt left (suc k) next_delay e)
  ]

  slept_all :
      (attempt : ℕ → Attempt) (left : ℕ) (delay : ℤ) (last : LastError)
      → (let r = retry_loop parse_time now random config attempt (suc left) 0 delay last in
          suc (length r.slept) ≡ r.calls)
  unfolding retry_loop
  slept_all attempt left delay last = elim (judged 0 (attempt 0)) [
    | inl (resp, answer, final, stops) ↦ rw stops refl
    | inr (next_delay, e, more, goes_on) ↦
        rw goes_on omega (arith, slept_later attempt left 0 next_delay e)
  ]

-- With at least one attempt allowed, `doWithRetry` returns the first answer of the server with a
-- status other than 429 and below 500 among the allowed attempts, after as many calls as it
-- takes, or, when no attempt gives one, an error after exactly the allowed calls; it sleeps once
-- between two calls.
pub do_with_retry_lem :
    (parse_time : Bytes → Option ℕ) (now : ℕ → ℕ) (random : ℕ → ℕ → ℕ) (config : RetryConfig)
    (attempt : ℕ → Attempt)
    → 0 < config.max_attempts
    → let r = do_with_retry parse_time now random config attempt in
      (IsAnswered attempt 0 config.max_attempts r
        ⊎ IsExhausted attempt 0 config.max_attempts config.max_attempts r)
      × (suc (length r.slept) ≡ r.calls)
unfolding do_with_retry
do_with_retry_lem parse_time now random config attempt h = (
  retry_loop_lem parse_time now random config attempt config.max_attempts 0 config.max_attempts
      (pos 0) no_error (omega arith),
  slept_at config.max_attempts h,
)
  where
    slept_at :
        (n : ℕ)
        → 0 < n
        → (let r = retry_loop parse_time now random config attempt n 0 (pos 0) no_error in
            suc (length r.slept) ≡ r.calls)
    slept_at zero k = absurd (omega (arith, k))
    slept_at (suc n) k = slept_all parse_time now random config attempt n (pos 0) no_error
