-- ===== src/Reporter/Bounds.antt =====
-- How long the agent waits.
use bongsu.Prelude.{
  ℕ, zero, suc, ◌+◌, ◌-◌, ◌*◌, ◌/◌, ◌%◌, ◌^◌, ◌≤◌, ◌<◌, ◌≡◌, refl, subst, Bool, true, false, not,
  Option, none, some, List, [], ◌++◌, arith, Bool-cases, Option-cases, inl, inr, all_of, ltb,
  if◌then◌else◌,
}
use bongsu.Prelude.Int.{ℤ, pos, negsuc}
use bongsu.Prelude.Result.{ok, err}
use bongsu.Text.{Bytes}
use bongsu.Reporter.{
  RetryConfig, should_retry_http, int64, second, gt_ℤ, bounded_backoff, jittered, doubled,
  exponential_backoff, retry_after_delay,
}
use bongsu.Reporter.Calls.{
  Response, Attempt, LastError, no_error, before, Verdict, again, done, judge, retry_loop,
  do_with_retry, retry_delay,
}
use bongsu.Reporter.Laws.{judged}
use native.Mathlib.Nat.{pow-le-pow_right, one-le-pow}

int64-small : (n : ℕ) → n < 2 ^ 63 → int64 n ≡ pos n
unfolding int64
int64-small n h = ground (arith, h)

-- The signed number is no larger than the one it is made of.
int64-le : (n b : ℕ) → n ≤ b → gt_ℤ (int64 n) (pos b) ≡ false
unfolding int64
int64-le n b h = ground (arith, h)

-- The smaller of the two.
abbrev pub least : ℕ → ℕ → ℕ
least a b = if ltb b a then b else a

scaled-small : (x : ℕ) → x ≤ 2 ^ 33 → int64 (x % 2 ^ 64 * second) ≡ pos (x * second)
unfolding int64
scaled-small x h = ground (arith, h)

least-pos : (x m : ℕ) → 0 < x → 0 < m → 0 < least (x * second) m
least-pos x m h k = ground (arith, h, k)

least-lt : (x m : ℕ) → m < 2 ^ 62 → least (x * second) m < 2 ^ 62
least-lt x m h = ground (arith, h)

doubled-small : (attempt : ℕ) → attempt ≤ 34 → doubled attempt ≡ pos (2 ^ (attempt - 1) * second)
doubled-small attempt h =
    let early : attempt - 1 ≤ 33 = omega (arith, h) in
    scaled-small (2 ^ (attempt - 1)) (pow-le-pow_right {n = 2} (omega arith) {j = 33} early)

bounded_backoff_lem : (m n : ℕ) → bounded_backoff (pos m) (pos n) ≡ pos (least n m)
unfolding bounded_backoff
bounded_backoff_lem m n = ground arith

jittered-bounds :
    (random : ℕ → ℕ) (n : ℕ)
    → 0 < n
    → n < 2 ^ 62
    → random (n / 2) ≤ n / 2
    → (d : ℕ) × (jittered random (pos n) ≡ pos d) × (n ≤ d) × (d ≤ n + n / 2)
jittered-bounds random n h k l =
    let small = int64-small (n + random (n / 2)) (omega (arith, h, k, l)) in
    (n + random (n / 2), ground (arith, small, h), omega arith, omega (arith, l))

-- For up to 34 attempts and a positive limit below 2^62 nanoseconds, the backoff is at least the
-- smaller of 2^(attempt-1) seconds and the limit, and at most half as much more, when a random
-- number below b is at most b.
pub exponential_backoff-bounds :
    (random : ℕ → ℕ) (m attempt : ℕ)
    → 0 < m
    → m < 2 ^ 62
    → attempt ≤ 34
    → ((b : ℕ) → random b ≤ b)
    → let n = least (2 ^ (attempt - 1) * second) m in
      (d : ℕ) × (exponential_backoff random (pos m) attempt ≡ pos d) × (n ≤ d) × (d ≤ n + n / 2)
unfolding exponential_backoff
exponential_backoff-bounds random m attempt low high early drawn =
    let n = least (2 ^ (attempt - 1) * second) m in
    let once : 0 < 2 ^ (attempt - 1) = one-le-pow (attempt - 1) 2 (omega arith) in
    rw (doubled-small attempt early) rw (bounded_backoff_lem m (2 ^ (attempt - 1) * second))
      (jittered-bounds random n (least-pos _ m once low) (least-lt _ m high) (drawn (n / 2)))

-- The longest wait with a limit of `m`: the limit and half of it.
abbrev pub is_long : ℕ → ℤ → Bool
is_long m delay = gt_ℤ delay (pos (m + m / 2))

bounded_backoff-le : (m : ℕ) (delay : ℤ) → gt_ℤ (bounded_backoff (pos m) delay) (pos m) ≡ false
unfolding bounded_backoff
bounded_backoff-le m (pos n) = ground arith
bounded_backoff-le m (negsuc n) = ground arith

bounded_backoff-short : (m : ℕ) (delay : ℤ) → is_long m (bounded_backoff (pos m) delay) ≡ false
unfolding bounded_backoff
bounded_backoff-short m (pos n) = ground arith
bounded_backoff-short m (negsuc n) = ground arith

jittered-short :
    (random : ℕ → ℕ) (m : ℕ) (delay : ℤ)
    → ((b : ℕ) → random b ≤ b)
    → gt_ℤ delay (pos m) ≡ false
    → is_long m (jittered random delay) ≡ false
jittered-short random m (negsuc n) drawn h = ground arith
jittered-short random m (pos n) drawn h =
    let le : n ≤ m = ground (arith, h) in
    let small = int64-le (n + random (n / 2)) (m + m / 2) (omega (arith, drawn (n / 2), le)) in
    ground (arith, small)

module _ (parse_time : Bytes → Option ℕ) (now : ℕ → ℕ) (random : ℕ → ℕ → ℕ) (attempts m : ℕ)
    (drawn : (k b : ℕ) → random k b ≤ b) where
  abbrev config : RetryConfig
  config = record { max_attempts = attempts; max_backoff = pos m }

  exponential_backoff-short : (k : ℕ) → is_long m (exponential_backoff (random k) (pos m) k) ≡ false
  unfolding exponential_backoff
  exponential_backoff-short k =
      jittered-short (random k) m (bounded_backoff (pos m) (doubled k)) (drawn k)
        (bounded_backoff-le m (doubled k))

  retry_delay-short :
      (k : ℕ) (resp : Option Response)
      → is_long m (retry_delay parse_time now random config k resp) ≡ false
  unfolding retry_delay
  retry_delay-short k none = exponential_backoff-short k
  retry_delay-short k (some resp) =
      elim (Option-cases (retry_after_delay parse_time resp.retry_after (now k))) [
        | inl unasked ↦ rw (retry_delay, unasked) (exponential_backoff-short k)
        | inr (delay, asked) ↦ rw (retry_delay, asked) (bounded_backoff-short m delay)
      ]

  -- The delay that a verdict asks for.
  abbrev is_short_again : Verdict → Bool
  is_short_again (again delay e) = not (is_long m delay)
  is_short_again (done resp) = true

  judge-short :
      (k : ℕ) (a : Attempt) → is_short_again (judge parse_time now random config k a) ≡ true
  unfolding judge
  judge-short k (err e) = rw (retry_delay-short (suc k) none) refl
  judge-short k (ok resp) = elim (Bool-cases (should_retry_http resp.status_code)) [
    | inl retry ↦ rw retry rw (retry_delay-short (suc k) (some resp)) refl
    | inr final ↦ rw final refl
  ]

  abbrev all_short : List ℤ → Bool
  all_short = all_of (λ (delay : ℤ). not (is_long m delay))

  before-short :
      (k : ℕ) (delay : ℤ) (rest : List ℤ)
      → is_long m delay ≡ false
      → all_short rest ≡ true
      → all_short (before k delay ++ rest) ≡ true
  before-short zero delay rest h r = r
  before-short (suc k) delay rest h r = rw (h, r) refl

  retry_loop-short :
      (attempt : ℕ → Attempt) (left k : ℕ) (delay : ℤ) (last : LastError)
      → is_long m delay ≡ false
      → all_short (retry_loop parse_time now random config attempt left k delay last).slept ≡ true
  unfolding retry_loop
  retry_loop-short attempt zero k delay last h = refl
  retry_loop-short attempt (suc left) k delay last h =
      elim (judged parse_time now random config k (attempt k)) [
        | inl (resp, answer, final, stops) ↦ rw stops (before-short k delay [] h refl)
        | inr (next_delay, e, more, goes_on) ↦
            let short =
              subst (λ (v : Verdict). is_short_again v ≡ true) goes_on
                (judge-short k (attempt k)) in
            rw goes_on (
              before-short k delay
                (retry_loop parse_time now random config attempt left (suc k) next_delay e).slept h
                (retry_loop-short attempt left (suc k) next_delay e (ground (arith, short))))
      ]

-- Whatever the server asks for in Retry-After, and however many attempts are made, no delay of
-- `doWithRetry` exceeds the limit and half of it, when a random number below b is at most b.
pub do_with_retry-short :
    (parse_time : Bytes → Option ℕ) (now : ℕ → ℕ) (random : ℕ → ℕ → ℕ) (attempts m : ℕ)
    (attempt : ℕ → Attempt)
    → ((k b : ℕ) → random k b ≤ b)
    → all_of
        (λ (delay : ℤ). not (is_long m delay))
        (do_with_retry parse_time now random
          (record { max_attempts = attempts; max_backoff = pos m })
          attempt).slept
      ≡ true
unfolding do_with_retry
do_with_retry-short parse_time now random attempts m attempt drawn =
    retry_loop-short parse_time now random attempts m drawn attempt attempts 0 (pos 0) no_error
      (ground arith)
