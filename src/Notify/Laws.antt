-- ===== src/Notify/Laws.antt =====
-- How a delivery ends, for the webhook and for the rules, and which rules are logged.
use bongsu.Prelude.{
  ℕ, ◌≤◌, ◌<◌, ◌≡◌, refl, ap, subst, sym, Bool, true, false, not, ◌&&◌, ◌||◌, List, [], ◌∷◌, ◌++◌,
  arith, leb, ltb, ◌==◌, if◌then◌else◌, Bool-cases, inl, inr, map, some,
}
use bongsu.Prelude.Sort.{filter}
use bongsu.Text.{Bytes, codes, equal, is_empty, trim_space}
use bongsu.Notify.{retry_webhook_status}
use bongsu.Notify.Deliver.{Verdict, stop, go_on, deliver, deliver-IsLast}
use bongsu.Notify.Webhook.{
  Reply, no_request, no_answer, answer, Report, is_success, judge_reply, at_least_one, send_event,
  failed,
}
use bongsu.Notify.Email.{Outcome}
use bongsu.Notify.Email
use bongsu.Notify.Rules.{
  NotificationRule, judge_webhook, send_webhook, Outside, EventData, NotificationLog, deliver_by,
  dispatch, dispatch_matching, evaluate_and_dispatch, matches_conditions,
}

-- The replies after which the delivery is tried again.
abbrev pub is_retryable : Reply → Bool
is_retryable (no_request e) = false
is_retryable (no_answer e) = true
is_retryable (answer status) = retry_webhook_status status

abbrev pub is_good : Reply → Bool
is_good (answer status) = is_success status
is_good _ = false

-- The delivery ends with the attempt `at`: those before it are worth another one, and it is the last
-- allowed, or not worth another one. It succeeds when that reply is good.
pub record IsDelivered (reply : ℕ → Reply) (n : ℕ) (attempts : ℕ) (succeeded : Bool) : Type 0 where
  pub in_time : (1 ≤ attempts) × (attempts ≤ n)
  pub earlier : (j : ℕ) → 1 ≤ j → j < attempts → is_retryable (reply j) ≡ true
  pub last : (not (is_retryable (reply attempts)) || attempts == n) ≡ true
  pub success : succeeded ≡ is_good (reply attempts)

-- What the two bodies of the loop have in common: their verdict on the reply to attempt `k`.
abbrev Fits : {R : Type 0} → ℕ → ℕ → Reply → (R → ℕ) → (R → Bool) → Verdict R → Type 0
Fits n k reply attempts succeeded (go_on r) = (is_retryable reply ≡ true) × (leb n k ≡ false)
Fits n k reply attempts succeeded (stop r) =
    (attempts r ≡ k)
    × ((not (is_retryable reply) || leb n k) ≡ true)
    × (succeeded r ≡ is_good reply)

Fits-stop :
    {R : Type 0} (n k : ℕ) (reply : Reply) (attempts : R → ℕ) (succeeded : R → Bool) (v : Verdict R)
    → leb n k ≡ true
    → Fits n k reply attempts succeeded v
    → (r : R) × (v ≡ stop r)
Fits-stop n k reply attempts succeeded (stop r) h f = (r, refl)
Fits-stop n k reply attempts succeeded (go_on r) h f = absurd (ground (arith, h, f.1))

module _ {R : Type 0} (n : ℕ) (judge : ℕ → ℕ → Reply → Verdict R) (attempts : R → ℕ)
    (succeeded : R → Bool)
    (fits : (k : ℕ) (reply : Reply)
      → k ≤ n
      → Fits n k reply attempts succeeded (judge n k reply)) where
  Fits-subst :
      (k : ℕ) (reply : Reply) (v : Verdict R)
      → k ≤ n
      → judge n k reply ≡ v
      → Fits n k reply attempts succeeded v
  Fits-subst k reply v h e =
      subst (λ (v : Verdict R). Fits n k reply attempts succeeded v) e (fits k reply h)

  deliver-IsDelivered :
      (reply : ℕ → Reply) (last : R)
      → 0 < n
      → let r = deliver (λ (k : ℕ). judge n k (reply k)) n last in
        IsDelivered reply n (attempts r) (succeeded r)
  deliver-IsDelivered reply last h =
      let r = deliver (λ (k : ℕ). judge n k (reply k)) n last in
      let stops =
        Fits-stop n n (reply n) attempts succeeded (judge n n (reply n)) (ground arith)
          (fits n (reply n) (omega arith)) in
      let e = deliver-IsLast (λ (k : ℕ). judge n k (reply k)) n last h stops in
      let top : e.at ≤ n = e.in_time.1 in
      let (at, final, success) = Fits-subst e.at (reply e.at) (stop r) top e.verdict in
      rw at record {
        in_time = e.in_time;
        earlier = λ i a b.
            let (s, goes) = e.earlier i a b in
            (Fits-subst i (reply i) (go_on s) (omega (arith, b, top)) goes).0;
        last = ground (arith, final, top);
        success = success;
      }

abbrev pub is_ok : Report → Bool
is_ok r = equal r.status (codes "ok")

abbrev pub is_sent : Outcome → Bool
is_sent o = equal o.status (codes "sent")

-- A status that is good is not one to ask again for.
good-final : (status : ℕ) → is_success status ≡ true → retry_webhook_status status ≡ false
unfolding retry_webhook_status
good-final status h = ground (arith, h)

judge_reply-Fits :
    (n k : ℕ) (reply : Reply)
    → k ≤ n
    → Fits n k reply (λ (r : Report). r.attempts) is_ok (judge_reply n k reply)
unfolding judge_reply equal
judge_reply-Fits n k (no_request e) h = (refl, refl, refl)
judge_reply-Fits n k (no_answer e) h = elim (Bool-cases (ltb k n)) [
  | inl more ↦ rw more (refl, ground (arith, more))
  | inr over ↦ rw over (refl, ground (arith, over), refl)
]
judge_reply-Fits n k (answer status) h = elim (Bool-cases (is_success status)) [
  | inl good ↦ rw good (refl, ground (arith, good-final status good), sym good)
  | inr bad ↦ elim (Bool-cases (not (retry_webhook_status status) || k == n)) [
    | inl over ↦ rw (bad, over) (refl, ground (arith, over), sym bad)
    | inr more ↦ rw (bad, more) (ground (arith, more), ground (arith, more, h))
  ]
]

judge_webhook-Fits :
    (n k : ℕ) (reply : Reply)
    → k ≤ n
    → Fits n k reply (λ (r : Outcome). r.attempts) is_sent (judge_webhook n k reply)
unfolding judge_webhook equal
judge_webhook-Fits n k (no_request e) h = (refl, refl, refl)
judge_webhook-Fits n k (no_answer e) h = elim (Bool-cases (ltb k n)) [
  | inl more ↦ rw more (refl, ground (arith, more))
  | inr over ↦ rw over (refl, ground (arith, over), refl)
]
judge_webhook-Fits n k (answer status) h = elim (Bool-cases (is_success status)) [
  | inl good ↦ rw good (refl, ground (arith, good-final status good), sym good)
  | inr bad ↦ elim (Bool-cases (not (retry_webhook_status status) || k == n)) [
    | inl over ↦ rw (bad, over) (refl, ground (arith, over), sym bad)
    | inr more ↦ rw (bad, more) (ground (arith, more), ground (arith, more, h))
  ]
]

-- The delivery of an event by `Send` reports the number of an attempt between 1 and the attempts
-- allowed, with 1 for 0; each attempt before it got no answer or a status of 429 or above 499;
-- this one is the last allowed or got none of these; and the report says ok exactly when its
-- status is from 200 to 299.
pub send_event-IsDelivered :
    (max_attempts : ℕ) (reply : ℕ → Reply)
    → let r = send_event max_attempts reply in
      IsDelivered reply (at_least_one max_attempts) r.attempts (is_ok r)
unfolding send_event
send_event-IsDelivered max_attempts reply =
    let n = at_least_one max_attempts in
    deliver-IsDelivered n judge_reply (λ (r : Report). r.attempts) is_ok (judge_reply-Fits n) reply
      (failed 0 [] n) (ground arith)

-- The deliveries of the rules end in the same way.
pub send_webhook-IsDelivered :
    (n : ℕ) (reply : ℕ → Reply)
    → 0 < n
    → let r = send_webhook n reply in IsDelivered reply n r.attempts (is_sent r)
unfolding send_webhook
send_webhook-IsDelivered n reply h =
    deliver-IsDelivered n judge_webhook (λ (r : Outcome). r.attempts) is_sent (judge_webhook-Fits n)
      reply (Email.failed [] n) h

-- A rule whose event is written to the log: all but a webhook without a URL.
abbrev pub is_logged : NotificationRule → Bool
is_logged rule =
    not (equal rule.channel_type (codes "webhook") && is_empty (trim_space rule.config_url))

dispatch_ids :
    (o : Outside) (event : Bytes) (rule : NotificationRule)
    → map (λ (l : NotificationLog). l.rule_id) (dispatch o event rule)
      ≡ (if is_logged rule then rule.id ∷ [] else [])
unfolding dispatch deliver_by
dispatch_ids o event rule = elim (Bool-cases (equal rule.channel_type (codes "webhook"))) [
  | inl webhook ↦ elim (Bool-cases (is_empty (trim_space rule.config_url))) [
    | inl nowhere ↦ rw (dispatch, deliver_by, webhook, nowhere) refl
    | inr somewhere ↦ rw (dispatch, deliver_by, webhook, somewhere) refl
  ]
  | inr no_webhook ↦ elim (Bool-cases (equal rule.channel_type (codes "email"))) [
    | inl email ↦ rw (dispatch, deliver_by, no_webhook, email) refl
    | inr no_email ↦ elim (Bool-cases (equal rule.channel_type (codes "log"))) [
      | inl log ↦ rw (dispatch, deliver_by, no_webhook, no_email, log) refl
      | inr no_log ↦ rw (dispatch, deliver_by, no_webhook, no_email, no_log) refl
    ]
  ]
]

map-append : {A B : Type 0} (f : A → B) (xs ys : List A) → map f (xs ++ ys) ≡ map f xs ++ map f ys
map-append f [] ys = refl
map-append f (x ∷ xs) ys = ap (◌∷◌ (f x)) (map-append f xs ys)

dispatch_matching_ids :
    (o : Outside) (rules : List NotificationRule) (event : Bytes) (d : EventData)
    → map (λ (l : NotificationLog). l.rule_id) (dispatch_matching o event d rules)
      ≡ map
          (λ (r : NotificationRule). r.id)
          (filter (λ (r : NotificationRule). matches_conditions r d && is_logged r) rules)
unfolding dispatch_matching filter
dispatch_matching_ids o [] event d = refl
dispatch_matching_ids o (rule ∷ rules) event d =
    let ih = dispatch_matching_ids o rules event d in
    let rest = dispatch_matching o event d rules in
    let ids = λ (l : NotificationLog). l.rule_id in
    elim (Bool-cases (matches_conditions rule d)) [
      | inr other ↦ rw other ih
      | inl hit ↦ elim (Bool-cases (is_logged rule)) [
        | inl kept ↦
            rw (hit, map-append ids (dispatch o event rule) rest, dispatch_ids o event rule) rw kept
              (ap (◌∷◌ rule.id) ih)
        | inr silent ↦
            rw (hit, map-append ids (dispatch o event rule) rest, dispatch_ids o event rule) rw
              silent ih
      ]
    ]

-- When notifications are not disabled and the rules are fetched, `evaluateAndDispatch` writes to
-- the log one row for each rule that matches the event, in the order of the rules and whatever
-- the outcome, except for a webhook without a URL.
pub evaluate_and_dispatch-map :
    (o : Outside) (rules : List NotificationRule) (event : Bytes) (d : EventData)
    → map (λ (l : NotificationLog). l.rule_id) (evaluate_and_dispatch o false (some rules) event d)
      ≡ map
          (λ (r : NotificationRule). r.id)
          (filter (λ (r : NotificationRule). matches_conditions r d && is_logged r) rules)
unfolding evaluate_and_dispatch
evaluate_and_dispatch-map o rules event d = dispatch_matching_ids o rules event d
