-- ===== src/Notify/Webhook.antt =====
-- internal/server/api/notify.go: `Send` for one event, up to its report. What JSON, the request and
-- the server do is `Reply`, attempt by attempt; the delays and the signature are left out.
use bongsu.Prelude.{ℕ, Bool, not, ◌&&◌, ◌||◌, [], leb, ltb, ◌==◌, if◌then◌else◌}
use bongsu.Text.{Bytes, codes}
use bongsu.Notify.{retry_webhook_status}
use bongsu.Notify.Deliver.{Verdict, stop, go_on, deliver}

pub data Reply : Type 0 where
  no_request : Bytes → Reply
  no_answer : Bytes → Reply
  answer : ℕ → Reply

-- The arguments of `onResult`.
pub record Report : Type 0 where
  pub status : Bytes
  pub http_status : ℕ
  pub err_msg : Bytes
  pub attempts : ℕ

abbrev pub failed : ℕ → Bytes → ℕ → Report
failed http_status err_msg attempts = record {
  status = codes "failed";
  http_status = http_status;
  err_msg = err_msg;
  attempts = attempts;
}

abbrev pub is_success : ℕ → Bool
is_success status = leb 200 status && ltb status 300

-- The body of the loop, at attempt `k` of `n`. A verdict to go on holds what is reported if the
-- loop is over.
unfoldable pub judge_reply : ℕ → ℕ → Reply → Verdict Report
unfolding retry_webhook_status
judge_reply n k (no_request e) = stop (failed 0 e k)
judge_reply n k (no_answer e) = if ltb k n then go_on (failed 0 e n) else stop (failed 0 e k)
judge_reply n k (answer status) =
    if is_success status
    then stop (record { status = codes "ok"; http_status = status; err_msg = []; attempts = k })
    else if not (retry_webhook_status status) || k == n
    then stop (failed status [] k)
    else go_on (failed status [] n)

abbrev pub at_least_one : ℕ → ℕ
at_least_one n = if n == 0 then 1 else n

unfoldable pub send_event : ℕ → (ℕ → Reply) → Report
unfolding judge_reply deliver
send_event max_attempts reply =
    let n = at_least_one max_attempts in
    deliver (λ (k : ℕ). judge_reply n k (reply k)) n (failed 0 [] n)
