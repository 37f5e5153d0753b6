-- ===== src/Scheduler/Next/First.antt =====
-- The time that the loop finds against all the minutes that it looks at.
use bongsu.Prelude.{
  ℕ, zero, suc, ◌+◌, ◌*◌, ◌/◌, ◌%◌, ◌≤◌, ◌<◌, ◌≡◌, sym, ◌-◌, true, false, Option, none, some, arith,
  Bool-cases, inl, inr,
}
use bongsu.Scheduler.Cron.{CronSchedule}
use bongsu.Scheduler.Next.{
  Calendar, one_minute, max_iter, cron_matches, next_loop, next_minute, next_cron_time,
}

at_zero : (t : ℕ) → t ≡ t + 0 * one_minute
at_zero t = omega arith

at_suc : (t i : ℕ) → t + suc i * one_minute ≡ t + one_minute + i * one_minute
at_suc t i = omega arith

-- The first whole minute behind a time.
next_minute_lem :
    (after : ℕ)
    → (after < next_minute after)
      × (next_minute after ≤ after + one_minute)
      × (next_minute after % one_minute ≡ 0)
unfolding next_minute
next_minute_lem after = omega arith

-- The end of the search.
abbrev pub last_minute : ℕ → ℕ
last_minute after = after + max_iter * one_minute

-- No whole minute stands between.
least_minute : (after u : ℕ) → after < u → u % one_minute ≡ 0 → next_minute after ≤ u
unfolding next_minute
least_minute after u l w = omega arith

-- A whole minute is some rounds behind another one that is not later.
rounds_from :
    (t u : ℕ) → t % one_minute ≡ 0 → u % one_minute ≡ 0 → t ≤ u → (i : ℕ) × (u ≡ t + i * one_minute)
rounds_from t u p q l = ((u - t) / one_minute, omega arith)

module _ (cal : Calendar) (s : CronSchedule) where
  -- No minute from `k` rounds on, and below `n`, matches.
  abbrev pub NoneBefore : ℕ → ℕ → Type 0
  NoneBefore t n = (i : ℕ) → i < n → cron_matches cal s (t + i * one_minute) ≡ false

  -- The result of a search from `t` through `n` minutes.
  abbrev pub IsFirst : ℕ → ℕ → Option ℕ → Type 0
  IsFirst t n none = NoneBefore t n
  IsFirst t n (some u) =
      (k : ℕ) × (k < n) × (u ≡ t + k * one_minute) × (cron_matches cal s u ≡ true) × NoneBefore t k

  NoneBefore-suc :
      (t n : ℕ)
      → cron_matches cal s t ≡ false
      → NoneBefore (t + one_minute) n
      → NoneBefore t (suc n)
  NoneBefore-suc t n here later zero l = rw (sym (at_zero t)) here
  NoneBefore-suc t n here later (suc i) l = rw (at_suc t i) (later i (omega arith))

  IsFirst-suc :
      (t n : ℕ) (r : Option ℕ)
      → cron_matches cal s t ≡ false
      → IsFirst (t + one_minute) n r
      → IsFirst t (suc n) r
  IsFirst-suc t n none here later = NoneBefore-suc t n here later
  IsFirst-suc t n (some u) here (k, l, e, m, later) =
      (suc k, omega arith, omega arith, m, NoneBefore-suc t k here later)

  next_loop-IsFirst : (n t : ℕ) → IsFirst t n (next_loop cal s n t)
  unfolding next_loop
  next_loop-IsFirst zero t = λ i l. absurd (omega arith)
  next_loop-IsFirst (suc n) t = elim (Bool-cases (cron_matches cal s t)) [
    | inl here ↦ rw here (0, omega arith, omega arith, here, λ i l. absurd (omega arith))
    | inr miss ↦ rw miss (IsFirst-suc t n _ miss (next_loop-IsFirst n (t + one_minute)))
  ]

  -- The whole minutes behind `after` and below `bound` do not match.
  abbrev pub NoMatch : ℕ → ℕ → Type 0
  NoMatch after bound =
      (u : ℕ) → after < u → u < bound → u % one_minute ≡ 0 → cron_matches cal s u ≡ false

  abbrev pub IsNext : ℕ → Option ℕ → Type 0
  IsNext after none = NoMatch after (suc (last_minute after))
  IsNext after (some t) =
      (after < t)
      × (t ≤ last_minute after)
      × (t % one_minute ≡ 0)
      × (cron_matches cal s t ≡ true)
      × NoMatch after t

  NoBefore-NoMatch :
      (after n bound : ℕ)
      → bound ≤ next_minute after + n * one_minute
      → NoneBefore (next_minute after) n
      → NoMatch after bound
  NoBefore-NoMatch after n bound b h u lo hi whole =
      let (p, q, w) = next_minute_lem after in
      let from_next : next_minute after ≤ u = least_minute after u lo whole in
      let (i, e) = rounds_from (next_minute after) u w whole from_next in rw e (h i (omega arith))

  IsFirst-IsNext :
      (after : ℕ) (r : Option ℕ) → IsFirst (next_minute after) max_iter r → IsNext after r
  IsFirst-IsNext after none h =
      NoBefore-NoMatch after max_iter (suc (last_minute after))
        (omega (arith, (next_minute_lem after).0)) h
  IsFirst-IsNext after (some t) (k, l, e, m, h) =
      let (p, q, w) = next_minute_lem after in
      (omega arith, omega arith, omega arith, m, NoBefore-NoMatch after k t (omega arith) h)

-- A time that `nextCronTime` returns is a whole minute that matches the schedule, lies after the
-- given time and within 525960 minutes of it, and no whole minute between the two matches; when
-- it returns none, no whole minute of that stretch matches. This holds in every calendar.
pub next_cron_time-IsNext :
    (cal : Calendar) (s : CronSchedule) (after : ℕ)
    → IsNext cal s after (next_cron_time cal s after)
unfolding next_cron_time
next_cron_time-IsNext cal s after =
    IsFirst-IsNext cal s after _ (next_loop-IsFirst cal s max_iter (next_minute after))
