-- ===== src/Notify/Tests.antt =====
-- The theorems on notifications at a concrete server, and runs of the settings and the mails.
use bongsu.Prelude.{
  ℕ, zero, suc, ◌+◌, ◌≤◌, ◌≡◌, refl, true, false, none, some, List, [], ◌∷◌, ◌++◌, map, length,
}
use bongsu.Prelude.Int.{pos}
use bongsu.Text.{codes, contains}
use bongsu.Notify.{
  WebhookNotifier, should_send_scan, parse_inventory_statuses, webhook_retry_attempts_from_env,
}
use bongsu.Notify.Webhook.{Reply, no_answer, answer, at_least_one, send_event}
use bongsu.Notify.Email.{build_email_message, email_recipients, crlf}
use bongsu.Notify.Rules.{
  NotificationRule, EventData, Outside, NotificationLog, evaluate_and_dispatch,
}
use bongsu.Notify.Slots.{Event, sends, ends, idle, run, sent_count, run-accounted}
use bongsu.Notify.Laws.{IsDelivered, is_ok, send_event-IsDelivered}

-- No answer, a busy server, then success.
abbrev flaky : ℕ → Reply
flaky zero = answer 500
flaky (suc zero) = no_answer (codes "timeout")
flaky (suc (suc zero)) = answer 503
flaky (suc (suc (suc k))) = answer 204

send_event-IsDelivered_example :
    let r = send_event 3 flaky in IsDelivered flaky (at_least_one 3) r.attempts (is_ok r)
send_event-IsDelivered_example = send_event-IsDelivered 3 flaky

delivered_test :
    send_event 3 flaky
    ≡ record { status = codes "ok"; http_status = 204; err_msg = []; attempts = 3 }
unfolding send_event
delivered_test = refl

abbrev rule : NotificationRule
rule = record {
  id = codes "r1";
  name = codes "high on web";
  min_severity = codes "HIGH";
  min_risk_level = [];
  exploited_only = false;
  host_filter = codes "web1, web2";
  channel_type = codes "webhook";
  config_url = codes "http://x";
  config_to = [];
}

abbrev rules : List NotificationRule
rules =
    rule
    ∷ record rule { id = codes "r2"; config_url = [] }
    ∷ record rule { id = codes "r3"; host_filter = codes "db1" }
    ∷ record rule { id = codes "r4"; channel_type = codes "log" }
    ∷ []

abbrev event_data : EventData
event_data = record {
  severity_counts = some ((codes "low", pos 4) ∷ (codes "Critical", pos 1) ∷ []);
  risk_level_counts = none;
  exploited_count = none;
  host_id = some (codes "web2");
}

abbrev outside : Outside
outside = record { env = λ name. []; reply = λ id. flaky; smtp = λ id k. none }

dispatched_test :
    map
      (λ (l : NotificationLog). l.rule_id)
      (evaluate_and_dispatch outside false (some rules) (codes "scan") event_data)
    ≡ codes "r1" ∷ codes "r4" ∷ []
unfolding evaluate_and_dispatch
dispatched_test = refl

abbrev busy : List Event
busy = sends ∷ sends ∷ sends ∷ ends flaky ∷ sends ∷ []

run-accounted_example :
    let r = run 2 3 busy idle in
    (r.in_flight ≤ 2) × (r.in_flight + length r.reports ≡ sent_count busy)
run-accounted_example = run-accounted 2 3 busy

abbrev notifier : WebhookNotifier
notifier = record {
  url = codes "http://x";
  min_severity = codes "CRITICAL";
  min_risk_level = [];
  inventory_statuses = some (parse_inventory_statuses (codes "Stale, unknown"));
}

inventory_test : should_send_scan notifier [] [] (codes " STALE ") ≡ true
unfolding should_send_scan parse_inventory_statuses
inventory_test = refl

attempts_test : webhook_retry_attempts_from_env (codes "99") ≡ 10
unfolding webhook_retry_attempts_from_env
attempts_test = refl

recipients_test : email_recipients (codes "a@x, nobody ,b@y") ≡ codes "a@x" ∷ codes "b@y" ∷ []
unfolding email_recipients
recipients_test = refl

-- The name of a rule goes into the subject as it is: a line break in it adds a header.
header_test :
    contains
      (build_email_message
        (codes "s@x")
        (codes "a@x" ∷ [])
        (codes "[Bongsu] scan " ++ crlf ++ codes "Bcc: b@y")
        []
        [])
      (crlf ++ codes "Bcc: b@y" ++ crlf)
    ≡ true
unfolding build_email_message contains
header_test = refl
