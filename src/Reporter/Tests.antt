-- ===== src/Reporter/Tests.antt =====
-- The theorems on the agent's requests at a concrete server, and the backoff past its range.
use bongsu.Prelude.{
  ℕ, zero, suc, ◌*◌, ◌≡◌, ◌⊎◌, refl, true, not, Option, none, some, [], ◌∷◌, arith, length, all_of,
}
use bongsu.Prelude.Int.{ℤ, pos, negsuc}
use bongsu.Prelude.Result.{ok, err}
use bongsu.Text.{Bytes, codes}
use bongsu.Reporter.{
  RetryConfig, second, exponential_backoff, retry_after_delay, retry_config_from_env,
}
use bongsu.Reporter.Calls.{Attempt, do_with_retry, read_bounded_error_body}
use bongsu.Reporter.Laws.{IsAnswered, IsExhausted, do_with_retry_lem}
use bongsu.Reporter.Bounds.{is_long, do_with_retry-short}

abbrev config : RetryConfig
config = record { max_attempts = 3; max_backoff = pos (30 * second) }

-- The network fails, then the server is busy for two seconds, then it answers.
abbrev flaky : ℕ → Attempt
flaky zero = err (codes "connection refused")
flaky (suc zero) = ok (record { status_code = 503; retry_after = codes " 2 "; body = [] })
flaky (suc (suc k)) = ok (record { status_code = 200; retry_after = []; body = codes "{}" })

abbrev no_date : Bytes → Option ℕ
no_date text = none

abbrev no_jitter : ℕ → ℕ → ℕ
no_jitter k b = 0

abbrev at_zero : ℕ → ℕ
at_zero k = 0

flaky_test :
    let r = do_with_retry no_date at_zero no_jitter config flaky in
    (r.calls ≡ 3) × (r.slept ≡ pos second ∷ pos (2 * second) ∷ [])
unfolding do_with_retry retry_after_delay
flaky_test = (refl, refl)

do_with_retry_example :
    let r = do_with_retry no_date at_zero no_jitter config flaky in
    (IsAnswered flaky 0 3 r ⊎ IsExhausted flaky 0 3 3 r) × (suc (length r.slept) ≡ r.calls)
do_with_retry_example = do_with_retry_lem no_date at_zero no_jitter config flaky (omega arith)

-- The next attempts after the 34 that the bounds cover: the seconds leave the 64 bits, and there
-- is no wait any more.
overflow_test : exponential_backoff (no_jitter 35) (pos (30 * second)) 35 ≡ pos 0
unfolding exponential_backoff
overflow_test = refl

do_with_retry-short_example :
    all_of
      (λ (delay : ℤ). not (is_long (30 * second) delay))
      (do_with_retry no_date at_zero no_jitter
        (record { max_attempts = 3; max_backoff = pos (30 * second) })
        flaky).slept
    ≡ true
do_with_retry-short_example =
    do_with_retry-short no_date at_zero no_jitter 3 (30 * second) flaky (λ k b. omega arith)

-- A body of more than 16 KiB is cut; this one is not.
body_test : read_bounded_error_body (some (codes "busy")) ≡ codes "busy"
unfolding read_bounded_error_body
body_test = refl

config_test :
    retry_config_from_env (codes "7") (codes "-1")
    ≡ record { max_attempts = 7; max_backoff = pos (30 * second) }
unfolding retry_config_from_env
config_test = refl

-- A Retry-After of ten thousand million seconds is a negative delay.
retry_after_test :
    retry_after_delay no_date (codes "10000000000") 0 ≡ some (negsuc 8446744073709551615)
unfolding retry_after_delay
retry_after_test = refl
