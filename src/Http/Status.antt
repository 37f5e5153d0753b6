-- ===== src/Http/Status.antt =====
-- internal/server/api/util.go: `applyAgentStatus`, by the age of the last report.
use bongsu.Prelude.{
  ℕ, suc, ◌-◌, ◌*◌, ◌/◌, ◌%◌, ◌^◌, ◌≤◌, ◌≡◌, refl, true, Option, none, some, arith, ltb,
  if◌then◌else◌, Bool-cases, inl, inr,
}
use bongsu.Prelude.Int.{ℤ, pos, negsuc}
use bongsu.Text.{Bytes}
use bongsu.Reporter.{int64, gt_ℤ, delay_until}
use bongsu.Notify.{env_int}

pub data AgentStatus : Type 0 where
  unknown online stale offline : AgentStatus

-- `time.Minute`
abbrev pub minute : ℕ
minute = 60 * 10 ^ 9

-- `time.Duration(n) * time.Minute` in 64 bits.
unfoldable pub minutes : ℤ → ℤ
unfolding int64
minutes (pos n) = int64 (n * minute)
minutes (negsuc n) = int64 (2 ^ 64 - suc n * minute % 2 ^ 64)

-- The larger of the two settings.
abbrev pub not_below : ℤ → ℤ → ℤ
not_below online_for offline_after =
    if gt_ℤ online_for offline_after then online_for else offline_after

abbrev pub by_age : ℤ → ℤ → ℤ → AgentStatus
by_age online_for offline_after age =
    if gt_ℤ age online_for then (if gt_ℤ age offline_after then offline else stale) else online

abbrev pub nanoseconds : ℤ → ℕ
nanoseconds (pos n) = n
nanoseconds (negsuc n) = 0

-- The status, and `LastSeenAgeS`; `none` is the zero time.
unfoldable pub apply_agent_status : Bytes → Bytes → Option ℕ → ℕ → AgentStatus × ℕ
unfolding env_int minutes
apply_agent_status online_env offline_env none now = (unknown, 0)
apply_agent_status online_env offline_env (some last_seen) now =
    let age = delay_until last_seen now in
    let online_for = minutes (env_int online_env (pos 1560)) in
    let offline_after = minutes (env_int offline_env (pos 4320)) in
    (by_age online_for (not_below online_for offline_after) age, nanoseconds age / 10 ^ 9)

abbrev pub rank : AgentStatus → ℕ
rank unknown = 0
rank online = 1
rank stale = 2
rank offline = 3

-- An older age passes every limit that a younger one passes.
older : (a b : ℕ) (limit : ℤ) → a ≤ b → gt_ℤ (pos a) limit ≡ true → gt_ℤ (pos b) limit ≡ true
older a b (pos c) h k = ground (arith, h, k)
older a b (negsuc c) h k = refl

-- The age never shrinks.
delay_until-pos :
    (last now : ℕ)
    → (a : ℕ) × (delay_until last now ≡ pos a) × (nanoseconds (delay_until last now) ≡ a)
delay_until-pos last now = elim (Bool-cases (ltb (now - last) (2 ^ 63))) [
  | inl small ↦ rw small (now - last, refl, refl)
  | inr large ↦ rw large (2 ^ 63 - 1, refl, refl)
]

delay_until-le :
    (last now later : ℕ)
    → now ≤ later
    → nanoseconds (delay_until last now) ≤ nanoseconds (delay_until last later)
delay_until-le last now later h = ground (arith, h)

by_age-le :
    (online_for offline_after : ℤ) (a b : ℕ)
    → a ≤ b
    → rank (by_age online_for (not_below online_for offline_after) (pos a))
      ≤ rank (by_age online_for (not_below online_for offline_after) (pos b))
by_age-le online_for offline_after a b h =
    ground (arith, older a b online_for h, older a b (not_below online_for offline_after) h)

-- For the same settings and the same last report, a later time gives `applyAgentStatus` no
-- smaller age, and a status that is no nearer to online, in the order online, stale, offline.
pub apply_agent_status-le :
    (online_env offline_env : Bytes) (last_seen : Option ℕ) (now later : ℕ)
    → now ≤ later
    → (rank (apply_agent_status online_env offline_env last_seen now).0
        ≤ rank (apply_agent_status online_env offline_env last_seen later).0)
      × ((apply_agent_status online_env offline_env last_seen now).1
          ≤ (apply_agent_status online_env offline_env last_seen later).1)
unfolding apply_agent_status
apply_agent_status-le online_env offline_env none now later h = (omega arith, omega arith)
apply_agent_status-le online_env offline_env (some last) now later h =
    let (a, e, n) = delay_until-pos last now in
    let (b, f, m) = delay_until-pos last later in
    let le = delay_until-le last now later h in
    let older_age : a ≤ b = omega (arith, le, n, m) in
    rw (e, f)
      (
        by_age-le (minutes (env_int online_env (pos 1560)))
            (minutes (env_int offline_env (pos 4320))) a b older_age,
        omega (arith, older_age),
      )
