-- ===== src/Notify.antt =====
-- internal/server/api/notify.go: which scans the webhook hears of, and its settings. A variable of
-- the environment is given by its value, which is empty when it is not set.
pub mod Deliver
pub mod Webhook
pub mod Email
pub mod Rules
pub mod Laws
pub mod Slots
mod Tests
use bongsu.Prelude.{
  ℕ, Bool, true, false, not, ◌&&◌, ◌||◌, Option, none, some, List, [], ◌∷◌, ltb, leb, ◌==◌, ◌*◌,
  ◌^◌, if◌then◌else◌, any_of, map,
}
use bongsu.Prelude.Int.{ℤ, pos, negsuc}
use bongsu.Prelude.Sort.{filter}
use bongsu.Text.{Bytes, codes, equal, is_empty, one_of, split_on, to_lower, trim_space}
use bongsu.Vercmp.Deb.{atoi}

-- `envInt`, of util.go.
abbrev pub int_or : ℤ → Option ℤ → ℤ
int_or d none = d
int_or d (some n) = n

unfoldable pub env_int : Bytes → ℤ → ℤ
unfolding atoi
env_int v d = if is_empty v then d else int_or d (atoi v)

-- `severityRank` compares in upper case, which for ASCII text is to
-- compare in lower case.
unfoldable pub severity_rank : Bytes → ℕ
unfolding to_lower equal
severity_rank severity =
    let s = to_lower severity in
    if equal s (codes "critical")
    then 4
    else if equal s (codes "high")
    then 3
    else if equal s (codes "medium")
    then 2
    else if equal s (codes "low")
    then 1
    else 0

unfoldable pub risk_rank : Bytes → ℕ
unfolding severity_rank trim_space
risk_rank level = severity_rank (trim_space level)

-- `map[string]int`, in the order in which the loop meets it.
abbrev pub Counts : Type 0
Counts = List (Bytes × ℤ)

abbrev pub some_found : ℤ → Bool
some_found (pos n) = ltb 0 n
some_found (negsuc n) = false

-- The loop over the counts: some count that is positive has a rank of at least `least`.
abbrev pub reaches : (Bytes → ℕ) → ℕ → Counts → Bool
reaches rank least = any_of (λ (e : Bytes × ℤ). some_found e.1 && leb least (rank e.0))

pub record WebhookNotifier : Type 0 where
  pub url : Bytes
  pub min_severity : Bytes
  pub min_risk_level : Bytes
  pub inventory_statuses : Option (List Bytes)

-- `none` is the nil pointer.
unfoldable pub enabled : Option WebhookNotifier → Bool
enabled none = false
enabled (some n) = not (is_empty n.url)

unfoldable pub should_send_severity : WebhookNotifier → Counts → Bool
unfolding enabled severity_rank
should_send_severity n counts =
    if enabled (some n)
    then (if is_empty n.min_severity
        then true
        else reaches severity_rank (severity_rank n.min_severity) counts)
    else false

unfoldable pub should_send_risk_level : WebhookNotifier → Counts → Bool
unfolding enabled risk_rank
should_send_risk_level n counts =
    if enabled (some n)
    then (if is_empty n.min_risk_level
        then false
        else reaches risk_rank (risk_rank n.min_risk_level) counts)
    else false

abbrev pub inventory_names : List Bytes
inventory_names =
    codes "healthy" ∷ codes "degraded" ∷ codes "stale" ∷ codes "empty" ∷ codes "none" ∷ []

-- The statuses that are known.
unfoldable pub parse_inventory_statuses : Bytes → List Bytes
unfolding filter one_of split_on to_lower trim_space
parse_inventory_statuses v =
    let text = if is_empty (trim_space v) then codes "empty" else v in
    filter (λ (part : Bytes). one_of part inventory_names)
      (map (λ (part : Bytes). to_lower (trim_space part)) (split_on b',' text))

abbrev pub statuses_or : Option (List Bytes) → List Bytes
statuses_or none = parse_inventory_statuses []
statuses_or (some names) = names

unfoldable pub should_send_scan : WebhookNotifier → Counts → Counts → Bytes → Bool
unfolding should_send_severity should_send_risk_level one_of parse_inventory_statuses
should_send_scan n severities risks inventory_status =
    if enabled (some n)
    then should_send_severity n severities
      || should_send_risk_level n risks
      || one_of (to_lower (trim_space inventory_status)) (statuses_or n.inventory_statuses)
    else false

unfoldable pub webhook_risk_level_from_env : Bytes → Bytes
unfolding one_of to_lower trim_space
webhook_risk_level_from_env v =
    let raw = to_lower (trim_space v) in
    if is_empty raw
    then codes "high"
    else if one_of raw (codes "none" ∷ codes "off" ∷ codes "disabled" ∷ codes "disable" ∷ [])
    then []
    else if one_of raw (codes "critical" ∷ codes "high" ∷ codes "medium" ∷ codes "low" ∷ [])
    then raw
    else codes "high"

-- The bounds of the settings: `low` for a number below 1, and no more than `top`.
abbrev pub clamp : ℕ → ℕ → ℤ → ℕ
clamp low top (negsuc n) = low
clamp low top (pos n) = if ltb n 1 then low else if ltb top n then top else n

unfoldable pub webhook_retry_attempts_from_env : Bytes → ℕ
unfolding env_int
webhook_retry_attempts_from_env v = clamp 1 10 (env_int v (pos 3))

-- In milliseconds.
unfoldable pub webhook_retry_delay_from_env : Bytes → ℕ
unfolding env_int
webhook_retry_delay_from_env v = clamp 1000 60000 (env_int v (pos 1000))

-- In seconds.
unfoldable pub webhook_timeout_from_env : Bytes → ℕ
unfolding env_int
webhook_timeout_from_env v = clamp 15 300 (env_int v (pos 15))

unfoldable pub retry_webhook_status : ℕ → Bool
retry_webhook_status status = status == 429 || leb 500 status
