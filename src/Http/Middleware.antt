-- ===== src/Http/Middleware.antt =====
-- internal/server/api/middleware.go, ratelimit.go and api.go: what is done before a handler runs. The
-- headers of a request are given by their values, which are empty when they are missing.
use bongsu.Prelude.{
  ℕ, Bool, not, ◌||◌, Option, none, some, List, [], ◌∷◌, ◌+◌, ltb, ◌==◌, if◌then◌else◌, all_of,
  length,
}
use bongsu.Text.{Bytes, codes, equal, equal_fold, is_empty, one_of, split_on, trim_space, within}

abbrev pub is_request_id_char : ℕ → Bool
is_request_id_char c =
    within b'a' b'z' c
    || within b'A' b'Z' c
    || within b'0' b'9' c
    || c == b'-'
    || c == b'_'
    || c == b'.'
    || c == b':'
    || c == b'/'

-- A byte of 128 and above belongs to a character that is refused.
unfoldable pub clean_request_id : Bytes → Bytes
unfolding trim_space
clean_request_id raw =
    let id = trim_space raw in
    if is_empty id || ltb 128 (length id)
    then []
    else if all_of is_request_id_char id
    then id
    else []

-- `made` is the new UUID.
unfoldable pub request_id : Bytes → Bytes → Bytes
unfolding clean_request_id
request_id header made =
    if is_empty (clean_request_id header) then made else clean_request_id header

-- The status that was written first, 0 for none, and the bytes written.
pub record StatusRecorder : Type 0 where
  pub status : ℕ
  pub bytes : ℕ

unfoldable pub write_header : ℕ → StatusRecorder → StatusRecorder
write_header status r = if r.status == 0 then record r { status = status } else r

-- `n` is the number of bytes that the writer took.
unfoldable pub write : ℕ → StatusRecorder → StatusRecorder
write n r = record { status = if r.status == 0 then 200 else r.status; bytes = r.bytes + n }

abbrev pub logged_status : StatusRecorder → ℕ
logged_status r = if r.status == 0 then 200 else r.status

-- What a middleware does with a request: it passes it on, or answers itself.
pub data Action : Type 0 where
  next : Action
  answers : ℕ → Action

abbrev pub Headers : Type 0
Headers = List (Bytes × Bytes)

abbrev pub cors_headers : Bytes → Headers
cors_headers origin =
    (codes "Access-Control-Allow-Origin", origin)
    ∷ (codes "Vary", codes "Origin")
    ∷ (codes "Access-Control-Allow-Methods", codes "GET, POST, DELETE, OPTIONS")
    ∷ (codes "Access-Control-Allow-Headers", codes "Content-Type, X-API-Key, X-Install-Token")
    ∷ (codes "Access-Control-Max-Age", codes "86400")
    ∷ []

abbrev pub by_method : Bytes → Action
by_method verb = if equal verb (codes "OPTIONS") then answers 204 else next

-- The headers that are set, and the action.
unfoldable pub cors : Bool → List Bytes → Bytes → Bytes → Headers × Action
unfolding equal one_of trim_space
cors allow_all origins origin_header verb =
    let origin = trim_space origin_header in
    if is_empty origin
    then ([], by_method verb)
    else if allow_all || one_of origin origins
    then (cors_headers origin, by_method verb)
    else if equal verb (codes "OPTIONS")
    then ([], answers 403)
    else ([], next)

unfoldable pub secure_request : Bool → Bytes → Bool
unfolding equal_fold trim_space
secure_request has_tls forwarded_proto =
    has_tls || equal_fold (trim_space forwarded_proto) (codes "https")

unfoldable pub is_rate_limit_exempt_path : Bytes → Bool
unfolding one_of
is_rate_limit_exempt_path path = one_of path (
    codes "/api/health"
    ∷ codes "/api/ready"
    ∷ codes "/api/live"
    ∷ codes "/api/docs/openapi.yaml"
    ∷ [])

abbrev pub first_part : List Bytes → Bytes
first_part [] = []
first_part (part ∷ parts) = part

-- `host` is what `net.SplitHostPort` finds in the remote address.
unfoldable pub client_ip : Bytes → Bytes → Bytes → Option Bytes → Bytes
unfolding split_on trim_space
client_ip forwarded real_ip remote_addr host =
    if not (is_empty forwarded)
    then trim_space (first_part (split_on b',' forwarded))
    else if not (is_empty real_ip)
    then trim_space real_ip
    else elim host [ some h ↦ h | none ↦ remote_addr ]
