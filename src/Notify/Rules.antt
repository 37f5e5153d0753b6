-- ===== src/Notify/Rules.antt =====
-- internal/server/api/notifier_engine.go: the notification rules of the database, an event at a time.
-- The members of a rule's configuration that are read here stand for the JSON object.
use bongsu.Prelude.{
  ℕ, Bool, true, false, not, ◌&&◌, ◌||◌, Option, none, some, List, [], ◌∷◌, ◌++◌, ltb, ◌==◌,
  if◌then◌else◌, any_of,
}
use bongsu.Prelude.Int.{ℤ, pos}
use bongsu.Text.{Bytes, codes, equal, is_empty, split_on, trim_space}
use bongsu.Text.Decimal.{decimal}
use bongsu.Notify.{Counts, severity_rank, risk_rank, reaches, env_int, clamp, retry_webhook_status}
use bongsu.Notify.Deliver.{Verdict, stop, go_on, deliver}
use bongsu.Notify.Webhook.{Reply, no_request, no_answer, answer, is_success}
use bongsu.Notify.Email.{Outcome, failed, sent, send_email}

pub record NotificationRule : Type 0 where
  pub id : Bytes
  pub name : Bytes
  pub min_severity : Bytes
  pub min_risk_level : Bytes
  pub exploited_only : Bool
  pub host_filter : Bytes
  pub channel_type : Bytes
  pub config_url : Bytes
  pub config_to : Bytes

-- The members of `data` that the conditions read; `none` is a member that is missing or of
-- another type.
pub record EventData : Type 0 where
  pub severity_counts : Option Counts
  pub risk_level_counts : Option Counts
  pub exploited_count : Option ℤ
  pub host_id : Option Bytes

abbrev pub reaches_level : (Bytes → ℕ) → Bytes → Option Counts → Bool
reaches_level rank least none = true
reaches_level rank least (some counts) =
    if is_empty least then true else reaches rank (rank least) counts

abbrev pub is_zero : Option ℤ → Bool
is_zero (some (pos n)) = n == 0
is_zero _ = false

abbrev pub text_or_empty : Option Bytes → Bytes
text_or_empty none = []
text_or_empty (some s) = s

-- The loop over the names of the filter.
unfoldable pub in_filter : Bytes → Bytes → Bool
unfolding equal split_on trim_space
in_filter host_filter host_id =
    not (is_empty host_id)
    && any_of (λ (f : Bytes). equal (trim_space f) host_id) (split_on b',' host_filter)

unfoldable pub matches_conditions : NotificationRule → EventData → Bool
unfolding severity_rank risk_rank in_filter
matches_conditions rule d =
    if not (reaches_level severity_rank rule.min_severity d.severity_counts)
    then false
    else if not (reaches_level risk_rank rule.min_risk_level d.risk_level_counts)
    then false
    else if rule.exploited_only && is_zero d.exploited_count
    then false
    else if is_empty rule.host_filter
    then true
    else in_filter rule.host_filter (text_or_empty d.host_id)

unfoldable pub notification_retry_attempts_from_env : Bytes → ℕ
unfolding env_int
notification_retry_attempts_from_env v = clamp 1 10 (env_int v (pos 3))

unfoldable pub judge_webhook : ℕ → ℕ → Reply → Verdict Outcome
unfolding retry_webhook_status decimal
judge_webhook n k (no_request e) = stop (failed e k)
judge_webhook n k (no_answer e) = if ltb k n then go_on (failed e n) else stop (failed e k)
judge_webhook n k (answer status) =
    let e = codes "HTTP " ++ decimal status in
    if is_success status
    then stop (sent k)
    else if not (retry_webhook_status status) || k == n
    then stop (failed e k)
    else go_on (failed e n)

unfoldable pub send_webhook : ℕ → (ℕ → Reply) → Outcome
unfolding judge_webhook deliver
send_webhook n reply = deliver (λ (k : ℕ). judge_webhook n k (reply k)) n (failed [] n)

-- A row of the log.
pub record NotificationLog : Type 0 where
  pub rule_id : Bytes
  pub trigger_event : Bytes
  pub status : Bytes
  pub error_message : Bytes
  pub attempts : ℕ

abbrev pub logged : NotificationRule → Bytes → Outcome → NotificationLog
logged rule event o = record {
  rule_id = rule.id;
  trigger_event = event;
  status = o.status;
  error_message = o.error_message;
  attempts = o.attempts;
}

-- What a rule's deliveries meet.
pub record Outside : Type 0 where
  pub env : Bytes → Bytes
  pub reply : Bytes → ℕ → Reply
  pub smtp : Bytes → ℕ → Option Bytes

abbrev pub attempts_allowed : Outside → ℕ
attempts_allowed o =
    notification_retry_attempts_from_env (o.env (codes "BONGSU_NOTIFICATION_RETRY_ATTEMPTS"))

-- The switch on the channel; `none` is a webhook without a URL, which is not logged.
unfoldable pub deliver_by : Outside → NotificationRule → Option Outcome
unfolding equal trim_space send_webhook send_email notification_retry_attempts_from_env
deliver_by o rule =
    if equal rule.channel_type (codes "webhook")
    then (if is_empty (trim_space rule.config_url)
        then none
        else some (send_webhook (attempts_allowed o) (o.reply rule.id)))
    else if equal rule.channel_type (codes "email")
    then some (send_email o.env (attempts_allowed o) (o.smtp rule.id) rule.config_to)
    else if equal rule.channel_type (codes "log")
    then some (sent 1)
    else some (record { status = []; error_message = []; attempts = 0 })

-- The rows that `dispatch` adds to the log, and with them the rules it touches.
unfoldable pub dispatch : Outside → Bytes → NotificationRule → List NotificationLog
unfolding deliver_by
dispatch o event rule = elim (deliver_by o rule) [
  | none ↦ []
  | some outcome ↦ logged rule event outcome ∷ []
]

-- The loop over the rules.
unfoldable pub dispatch_matching :
    Outside → Bytes → EventData → List NotificationRule → List NotificationLog
unfolding matches_conditions dispatch
dispatch_matching o event d [] = []
dispatch_matching o event d (rule ∷ rules) =
    let rest = dispatch_matching o event d rules in
    if matches_conditions rule d then dispatch o event rule ++ rest else rest

-- `fetched` is the answer of `GetEnabledRulesForEvent`.
unfoldable pub evaluate_and_dispatch :
    Outside → Bool → Option (List NotificationRule) → Bytes → EventData → List NotificationLog
unfolding dispatch_matching
evaluate_and_dispatch o disabled none event d = []
evaluate_and_dispatch o disabled (some rules) event d =
    if disabled then [] else dispatch_matching o event d rules

abbrev pub error_or : Bytes → Outcome → Option Bytes
error_or default o =
    if equal o.status (codes "sent")
    then none
    else some (if is_empty o.error_message then default else o.error_message)

-- `none` is success.
unfoldable pub dispatch_test : Outside → NotificationRule → Option Bytes
unfolding equal trim_space send_webhook send_email notification_retry_attempts_from_env
dispatch_test o rule =
    if equal rule.channel_type (codes "webhook")
    then (if is_empty (trim_space rule.config_url)
        then some (codes "no url configured")
        else error_or (codes "webhook failed")
            (send_webhook (attempts_allowed o) (o.reply rule.id)))
    else if equal rule.channel_type (codes "email")
    then error_or (codes "email send failed")
        (send_email o.env (attempts_allowed o) (o.smtp rule.id) rule.config_to)
    else if equal rule.channel_type (codes "log")
    then none
    else some (codes "unknown channel type: " ++ rule.channel_type)
