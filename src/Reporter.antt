-- ===== src/Reporter.antt =====
-- internal/agent/reporter/reporter.go: when the agent asks the server again. A `time.Duration` is a
-- number of nanoseconds in 64 bits, written as an integer in that range; products wrap around.
-- `now` is the time as a number of nanoseconds, and `parse_time` is `http.ParseTime`.
pub mod Calls
pub mod Laws
pub mod Bounds
mod Tests
use bongsu.Prelude.{
  ℕ, zero, suc, ◌+◌, ◌-◌, ◌*◌, ◌/◌, ◌%◌, ◌^◌, Bool, true, false, not, ◌||◌, Option, none, some, ltb,
  leb, ◌==◌, if◌then◌else◌,
}
use bongsu.Prelude.Int.{ℤ, pos, negsuc}
use bongsu.Text.{Bytes, is_empty, trim_space}
use bongsu.Vercmp.Deb.{atoi}

-- The signed number with the low 64 bits of `n`.
unfoldable pub int64 : ℕ → ℤ
int64 n = let m = n % 2 ^ 64 in if ltb m (2 ^ 63) then pos m else negsuc (2 ^ 64 - 1 - m)

-- `time.Second`
abbrev pub second : ℕ
second = 10 ^ 9

pub record RetryConfig : Type 0 where
  pub max_attempts : ℕ
  pub max_backoff : ℤ

-- `n > 0`
abbrev pub positive : Option ℤ → Option ℕ
positive none = none
positive (some (negsuc n)) = none
positive (some (pos n)) = if n == 0 then none else some n

-- A variable of the environment that holds a positive number.
unfoldable pub positive_env : Bytes → Option ℕ
unfolding atoi
positive_env v = if is_empty v then none else positive (atoi v)

abbrev pub seconds_or {ℓ} : {A : Type ℓ} → A → (ℕ → A) → Option ℕ → A
seconds_or d f none = d
seconds_or d f (some n) = f n

-- By the two variables of the environment.
unfoldable pub retry_config_from_env : Bytes → Bytes → RetryConfig
unfolding positive_env int64
retry_config_from_env attempts seconds = record {
  max_attempts = seconds_or 5 (λ n. n) (positive_env attempts);
  max_backoff = seconds_or (pos (30 * second)) (λ n. int64 (n * second)) (positive_env seconds);
}

unfoldable pub should_retry_http : ℕ → Bool
should_retry_http status = status == 429 || leb 500 status

-- `when.Sub(now)`, which stops at the largest duration, and no less than 0.
abbrev pub delay_until : ℕ → ℕ → ℤ
delay_until now at = let d = at - now in if ltb d (2 ^ 63) then pos d else pos (2 ^ 63 - 1)

abbrev pub by_date : ℕ → Option ℕ → Option ℤ
by_date now none = none
by_date now (some at) = some (delay_until now at)

abbrev pub by_seconds : ℤ → Option ℤ
by_seconds (negsuc n) = none
by_seconds (pos n) = some (int64 (n * second))

unfoldable pub retry_after_delay : (Bytes → Option ℕ) → Bytes → ℕ → Option ℤ
unfolding int64 trim_space atoi
retry_after_delay parse_time header now =
    let text = trim_space header in
    if is_empty text
    then none
    else elim (atoi text) [ some n ↦ by_seconds n | none ↦ by_date now (parse_time text) ]

-- `a > b`
abbrev pub gt_ℤ : ℤ → ℤ → Bool
gt_ℤ (pos a) (pos b) = ltb b a
gt_ℤ (pos a) (negsuc b) = true
gt_ℤ (negsuc a) (pos b) = false
gt_ℤ (negsuc a) (negsuc b) = ltb a b

unfoldable pub bounded_backoff : ℤ → ℤ → ℤ
bounded_backoff max_backoff delay = if gt_ℤ delay max_backoff then max_backoff else delay

-- `random n` is `rng.Int63n(n)`, which is asked for a positive n only, as a backoff is a whole
-- number of seconds modulo 2^64 and so a multiple of 512.
abbrev pub jittered : (ℕ → ℕ) → ℤ → ℤ
jittered random (negsuc n) = pos 0
jittered random (pos n) = if n == 0 then pos 0 else int64 (n + random (n / 2))

-- `time.Duration(1<<uint(attempt-1)) * time.Second`; `attempt` is positive, or taken as 1.
abbrev pub doubled : ℕ → ℤ
doubled attempt = int64 (2 ^ (attempt - 1) % 2 ^ 64 * second)

unfoldable pub exponential_backoff : (ℕ → ℕ) → ℤ → ℕ → ℤ
unfolding int64 bounded_backoff
exponential_backoff random max_backoff attempt =
    jittered random (bounded_backoff max_backoff (doubled attempt))
