-- ===== src/ResponseCache.antt =====
-- internal/server/api/response_cache.go: the cache of answers, by keys that name the caller's scope.
-- A duration or a time is a number of nanoseconds, and each operation is one step under the lock.
pub mod Laws
mod Tests
use bongsu.Prelude.{
  ℕ, suc, ◌+◌, ◌*◌, ◌^◌, ◌≤◌, ◌≡◌, Bool, true, false, not, Option, none, some, List, [], ◌∷◌,
  length, leb, ltb, ◌==◌, if◌then◌else◌,
}
use bongsu.Prelude.Int.{ℤ, pos, negsuc}
use bongsu.Text.{Bytes}
use bongsu.Text.Dict.{Dict, get, delete}
use bongsu.Notify.{env_int}

pub record ResponseCacheEntry {ℓ} (V : Type ℓ) : Type ℓ where
  pub value : V
  pub expires : ℕ

-- Each key stands once in `entries`.
pub record ResponseCache {ℓ} (V : Type ℓ) : Type ℓ where
  pub ttl : ℕ
  pub entries : Dict (ResponseCacheEntry V)

abbrev pub seconds_of : ℤ → ℕ
seconds_of (pos n) = n
seconds_of (negsuc n) = 0

module _ {ℓ} {V : Type ℓ} where
  -- By the variable of the environment; 0 switches the cache off.
  unfoldable pub new_response_cache : Bytes → ℕ → ResponseCache V
  unfolding env_int
  new_response_cache ttl_env def_seconds = record {
    ttl = seconds_of (env_int ttl_env (pos def_seconds)) * 10 ^ 9;
    entries = [];
  }

  abbrev pub unless_expired : ℕ → Option (ResponseCacheEntry V) → Option V
  unless_expired now none = none
  unless_expired now (some e) = if ltb e.expires now then none else some e.value

  unfoldable pub cached : ResponseCache V → ℕ → Bytes → Option V
  unfolding get
  cached c now key = if c.ttl == 0 then none else unless_expired now (get key c.entries)

  -- The map is emptied when it holds more than 256 entries.
  abbrev pub bounded : Dict (ResponseCacheEntry V) → Dict (ResponseCacheEntry V)
  bounded entries = if ltb 256 (length entries) then [] else entries

  unfoldable pub put : Bytes → V → ℕ → ResponseCache V → ResponseCache V
  unfolding delete
  put key value now c = if c.ttl == 0 then c else record c {
    entries =
        (key, record { value = value; expires = now + c.ttl }) ∷ delete key (bounded c.entries);
  }

  unfoldable pub invalidate : ResponseCache V → ResponseCache V
  invalidate c = if c.ttl == 0 then c else record c { entries = [] }
