-- ===== src/TokenStore.antt =====
-- internal/server/api/api_token_store.go: the cache of the active API tokens, of a server that has a
-- database. `hash` is the hexadecimal SHA-256, and a time a number of nanoseconds. Each operation
-- holds the lock while it reads or changes the maps; `refresh` here is what it does with the answer
-- of the database, which it asks for before.
pub mod World
pub mod Laws
mod Tests
use bongsu.Prelude.{
  ℕ, ◌+◌, ◌-◌, ◌*◌, ◌^◌, Bool, true, false, not, ◌&&◌, Option, none, some, List, [], ◌∷◌, map, ltb,
  leb, if◌then◌else◌, drop,
}
use bongsu.Prelude.Sort.{filter}
use bongsu.Text.{Bytes, equal, is_empty, one_of, codes, has_prefix, trim_space}
use bongsu.Text.Dict.{Dict, get, set, delete}

pub record ApiTokenEntry : Type 0 where
  pub id : Bytes
  pub role : Bytes
  pub subject : Bytes
  pub expires_at : Option ℕ

-- A row of `ActiveAPITokens`.
pub record ApiToken : Type 0 where
  pub token_hash : Bytes
  pub id : Bytes
  pub role : Bytes
  pub subject : Bytes
  pub expires_at : Option ℕ

pub record ApiTokenStore : Type 0 where
  pub by_hash : Dict ApiTokenEntry
  pub last_seen : Dict ℕ

abbrev pub new_api_token_store : ApiTokenStore
new_api_token_store = record { by_hash = []; last_seen = [] }

abbrev pub entry_of : ApiToken → ApiTokenEntry
entry_of t = record { id = t.id; role = t.role; subject = t.subject; expires_at = t.expires_at }

-- The loop that fills `next`.
unfoldable pub fill : List ApiToken → Dict ApiTokenEntry → Dict ApiTokenEntry
fill [] next = next
fill (t ∷ tokens) next = fill tokens (set t.token_hash (entry_of t) next)

abbrev pub active_ids : List ApiToken → List Bytes
active_ids = map (λ (t : ApiToken). t.id)

-- `none` is an error of the database.
unfoldable pub refresh : Option (List ApiToken) → ApiTokenStore → ApiTokenStore
unfolding fill filter one_of
refresh none s = s
refresh (some tokens) s = record {
  by_hash = fill tokens [];
  last_seen = filter (λ (e : Bytes × ℕ). one_of e.0 (active_ids tokens)) s.last_seen;
}

unfoldable pub put : Bytes → ApiTokenEntry → ApiTokenStore → ApiTokenStore
put hash e s =
    if is_empty hash then s else record { by_hash = set hash e s.by_hash; last_seen = s.last_seen }

unfoldable pub evict : Bytes → ApiTokenStore → ApiTokenStore
unfolding delete
evict hash s =
    if is_empty hash then s else record { by_hash = delete hash s.by_hash; last_seen = s.last_seen }

-- `e.ExpiresAt != nil && !e.ExpiresAt.After(now)`
abbrev pub is_expired : ℕ → Option ℕ → Bool
is_expired now none = false
is_expired now (some t) = leb t now

abbrev pub unless_expired : ℕ → Option ApiTokenEntry → Option ApiTokenEntry
unless_expired now none = none
unless_expired now (some e) = if is_expired now e.expires_at then none else some e

unfoldable pub lookup : (Bytes → Bytes) → ApiTokenStore → ℕ → Bytes → Option ApiTokenEntry
unfolding get
lookup hash s now secret =
    if is_empty secret then none else unless_expired now (get (hash secret) s.by_hash)

-- `time.Minute`.
abbrev pub one_minute : ℕ
one_minute = 60 * 10 ^ 9

abbrev pub is_recent : ℕ → Option ℕ → Bool
is_recent now none = false
is_recent now (some last) = ltb now (last + one_minute)

-- The store, and whether the use is recorded in the database.
unfoldable pub mark_used : Bytes → ℕ → ApiTokenStore → ApiTokenStore × Bool
unfolding get
mark_used id now s =
    if is_empty id
    then (s, false)
    else if is_recent now (get id s.last_seen)
    then (s, false)
    else (record { by_hash = s.by_hash; last_seen = set id now s.last_seen }, true)

-- The key that a request presents, by its headers X-API-Key and Authorization.
unfoldable pub presented_key : Bytes → Bytes → Bytes
unfolding has_prefix trim_space
presented_key x_api_key authorization =
    if not (is_empty x_api_key)
    then x_api_key
    else if has_prefix authorization (codes "Bearer ")
    then trim_space (drop 7 authorization)
    else []

abbrev pub with_use :
    ℕ → ApiTokenStore → Option ApiTokenEntry → Option ApiTokenEntry × ApiTokenStore
with_use now s none = (none, s)
with_use now s (some e) = (some e, (mark_used e.id now s).0)

-- The entry, and the store with its use recorded.
unfoldable pub api_token_from_request :
    (Bytes → Bytes) → ApiTokenStore → ℕ → Bytes → Bytes → Option ApiTokenEntry × ApiTokenStore
unfolding lookup mark_used presented_key
api_token_from_request hash s now x_api_key authorization =
    with_use now s (lookup hash s now (presented_key x_api_key authorization))
