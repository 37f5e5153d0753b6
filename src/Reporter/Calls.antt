-- ===== src/Reporter/Calls.antt =====
-- internal/agent/reporter/reporter.go: the requests that the agent sends, and their repetition.
-- The server and the network are `attempt`, what the k-th call gives; `Body` is what a body
-- decodes to, by encoding/json.
use bongsu.Prelude.{
  ℕ, zero, suc, Option, none, some, List, [], ◌∷◌, ◌++◌, leb, ◌==◌, if◌then◌else◌, take, length,
}
use bongsu.Prelude.Int.{ℤ, pos}
use bongsu.Prelude.Result.{Result, ok, err, ◌>>=◌}
use bongsu.Text.{Bytes, codes, is_empty}
use bongsu.Reporter.{
  RetryConfig, should_retry_http, retry_after_delay, bounded_backoff, exponential_backoff,
}

pub record Response : Type 0 where
  pub status_code : ℕ
  pub retry_after : Bytes
  pub body : Bytes

-- What `fn` returns.
abbrev pub Attempt : Type 0
Attempt = Result Bytes Response

-- `server returned %d`, the error of the network, or none so far.
pub data LastError : Type 0 where
  no_error : LastError
  network : Bytes → LastError
  returned : ℕ → LastError

pub data RequestError : Type 0 where
  after_attempts : ℕ → LastError → RequestError
  bad_status : ℕ → Bytes → RequestError
  bad_body : RequestError

-- The result, the number of calls, and the delays slept, in their order.
pub record Run : Type 0 where
  pub result : Result RequestError Response
  pub calls : ℕ
  pub slept : List ℤ

-- What an attempt means for the loop.
pub data Verdict : Type 0 where
  again : ℤ → LastError → Verdict
  done : Response → Verdict

abbrev pub before : ℕ → ℤ → List ℤ
before zero delay = []
before (suc k) delay = delay ∷ []

abbrev pub with_sleep : List ℤ → Run → Run
with_sleep slept r = record r { slept = slept ++ r.slept }

module _ (parse_time : Bytes → Option ℕ) (now : ℕ → ℕ) (random : ℕ → ℕ → ℕ)
    (config : RetryConfig) where
  -- Behind attempt number `k`, from 1; `none` is a nil response.
  unfoldable pub retry_delay : ℕ → Option Response → ℤ
  unfolding exponential_backoff
  retry_delay k none = exponential_backoff (random k) config.max_backoff k
  retry_delay k (some resp) = elim (retry_after_delay parse_time resp.retry_after (now k)) [
    | some delay ↦ bounded_backoff config.max_backoff delay
    | none ↦ exponential_backoff (random k) config.max_backoff k
  ]

  unfoldable pub judge : ℕ → Attempt → Verdict
  unfolding should_retry_http retry_delay
  judge k (err e) = again (retry_delay (suc k) none) (network e)
  judge k (ok resp) =
      if should_retry_http resp.status_code
      then again (retry_delay (suc k) (some resp)) (returned resp.status_code)
      else done resp

  -- The loop from attempt `k` on, with `left` attempts to go.
  unfoldable pub retry_loop : (ℕ → Attempt) → ℕ → ℕ → ℤ → LastError → Run
  unfolding judge
  retry_loop attempt zero k delay last = record {
    result = err (after_attempts config.max_attempts last);
    calls = k;
    slept = [];
  }
  retry_loop attempt (suc left) k delay last =
      with_sleep (before k delay) (elim (judge k (attempt k)) [
        | again next_delay e ↦ retry_loop attempt left (suc k) next_delay e
        | done resp ↦ record { result = ok resp; calls = suc k; slept = [] }
      ])

  unfoldable pub do_with_retry : (ℕ → Attempt) → Run
  unfolding retry_loop
  do_with_retry attempt = retry_loop attempt config.max_attempts 0 (pos 0) no_error

-- `maxErrorResponseBodyBytes`
abbrev pub max_error_response_body_bytes : ℕ
max_error_response_body_bytes = 16384

-- `none` is an error while the body is read.
unfoldable pub read_bounded_error_body : Option Bytes → Bytes
read_bounded_error_body none = codes "failed to read error response"
read_bounded_error_body (some data_read) =
    if leb (length data_read) max_error_response_body_bytes
    then data_read
    else take max_error_response_body_bytes data_read ++ codes "...(truncated)"

-- The answers of the three requests: a body is read with a status of 200 only.
unfoldable pub answered :
    {Body : Type 0} → (Bytes → Option Body) → Response → Result RequestError Body
unfolding read_bounded_error_body
answered decode resp =
    if resp.status_code == 200
    then elim (decode resp.body) [ none ↦ err bad_body | some b ↦ ok b ]
    else err (bad_status resp.status_code (read_bounded_error_body (some resp.body)))

pub record ReportResult : Type 0 where
  pub status : Bytes
  pub scan_id : Bytes
  pub scan_status : Bytes
  pub inventory_status : Bytes
  pub ingest_error_count : ℤ
  pub skipped_vuln_count : ℤ

abbrev pub completed : ReportResult → ReportResult
completed r = if is_empty r.scan_status then record r { scan_status = codes "completed" } else r

abbrev pub sent : Result RequestError ReportResult → Result RequestError ReportResult
sent r = r >>= λ body. ok (completed body)

module _ (parse_time : Bytes → Option ℕ) (now : ℕ → ℕ) (random : ℕ → ℕ → ℕ)
    (config : RetryConfig) where
  unfoldable pub send :
      (Bytes → Option ReportResult) → (ℕ → Attempt) → Result RequestError ReportResult
  unfolding do_with_retry answered
  send decode attempt =
      sent ((do_with_retry parse_time now random config attempt).result >>= answered decode)

  -- `Request` is what the member "request" of the body decodes to, null included.
  unfoldable pub claim_scan_request :
      {Request : Type 0} → (Bytes → Option Request) → (ℕ → Attempt) → Result RequestError Request
  unfolding do_with_retry answered
  claim_scan_request decode attempt =
      (do_with_retry parse_time now random config attempt).result >>= answered decode

  -- The body of a status of 200 is not read.
  unfoldable pub complete_scan_request : (ℕ → Attempt) → Result {0, 0} RequestError Unit
  unfolding do_with_retry answered
  complete_scan_request attempt =
      (do_with_retry parse_time now random config attempt).result
      >>= answered (λ (body : Bytes). some tt)
