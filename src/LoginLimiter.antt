-- ===== src/LoginLimiter.antt =====
-- internal/server/api/login_limiter.go: the limiter of failed logins. A time is in nanoseconds, and
-- the map is an association list in which a key stands once.
pub mod Laws
mod Tests
use bongsu.Prelude.{
  ℕ, zero, suc, ◌-◌, Bool, true, false, not, Option, none, some, List, [], ◌∷◌, ◌++◌, ltb, leb,
  if◌then◌else◌, length,
}
use bongsu.Text.{Bytes, codes, equal, is_empty, trim_space, to_lower}

pub record LoginFailures : Type 0 where
  pub count : ℕ
  pub first : ℕ

abbrev pub Entries : Type 0
Entries = List (Bytes × LoginFailures)

pub record LoginLimiter : Type 0 where
  pub max_failures : ℕ
  pub window : ℕ
  pub entries : Entries

abbrev pub login_limiter_max_entries : ℕ
login_limiter_max_entries = 100000

unfoldable pub find : Bytes → Entries → Option LoginFailures
unfolding equal
find key [] = none
find key ((k, e) ∷ es) = let rest = find key es in if equal k key then some e else rest

unfoldable pub remove : Bytes → Entries → Entries
unfolding equal
remove key [] = []
remove key ((k, e) ∷ es) = let rest = remove key es in if equal k key then rest else (k, e) ∷ rest

abbrev pub put : Bytes → LoginFailures → Entries → Entries
put key e es = (key, e) ∷ remove key es

-- `now.Sub(e.first) > l.window`
abbrev pub expired : ℕ → ℕ → LoginFailures → Bool
expired window now e = ltb window (now - e.first)

abbrev pub tagged : Bytes → Bytes → List Bytes
tagged tag s = if is_empty s then [] else (tag ++ 0 ∷ s) ∷ []

unfoldable pub login_limiter_keys : Bytes → Bytes → List Bytes
unfolding trim_space to_lower
login_limiter_keys ip username =
    tagged (codes "ip") (trim_space ip) ++ tagged (codes "user") (to_lower (trim_space username))

-- The loop of `blocked`: its result, and the entries that are left.
unfoldable pub blocked_loop : ℕ → ℕ → ℕ → List Bytes → Entries → Bool × Entries
blocked_loop max window now [] es = (false, es)
blocked_loop max window now (key ∷ keys) es = elim (find key es) [
  | none ↦ blocked_loop max window now keys es
  | some e ↦
      let dropped = blocked_loop max window now keys (remove key es) in
      let kept = blocked_loop max window now keys es in
      if expired window now e then dropped else if leb max e.count then (true, es) else kept
]

unfoldable pub blocked : LoginLimiter → ℕ → Bytes → Bytes → Bool × LoginLimiter
unfolding blocked_loop login_limiter_keys find remove
blocked l now ip username =
    let (b, es) =
      blocked_loop l.max_failures l.window now (login_limiter_keys ip username) l.entries in
    (b, record { max_failures = l.max_failures; window = l.window; entries = es })

unfoldable pub drop_expired : ℕ → ℕ → Entries → Entries
drop_expired window now [] = []
drop_expired window now ((k, e) ∷ es) =
    let rest = drop_expired window now es in if expired window now e then rest else (k, e) ∷ rest

-- The hard cap of `fail`.
unfoldable pub capped : ℕ → ℕ → Entries → Entries
unfolding drop_expired
capped window now es =
    let kept = drop_expired window now es in
    if leb login_limiter_max_entries (length es)
    then if leb login_limiter_max_entries (length kept) then [] else kept
    else es

-- One round of the loop of `fail`.
unfoldable pub count_failure : ℕ → ℕ → Bytes → Entries → Entries
unfolding find remove
count_failure window now key es = elim (find key es) [
  | none ↦ put key (record { count = 1; first = now }) es
  | some e ↦
      if expired window now e
      then put key (record { count = 1; first = now }) es
      else put key (record { count = suc e.count; first = e.first }) es
]

unfoldable pub count_failures : ℕ → ℕ → List Bytes → Entries → Entries
unfolding count_failure
count_failures window now [] es = es
count_failures window now (key ∷ keys) es =
    count_failures window now keys (count_failure window now key es)

unfoldable pub fail : LoginLimiter → ℕ → Bytes → Bytes → LoginLimiter
unfolding capped count_failures login_limiter_keys
fail l now ip username = record {
  max_failures = l.max_failures;
  window = l.window;
  entries =
      count_failures l.window now (login_limiter_keys ip username) (capped l.window now l.entries);
}

unfoldable pub remove_all : List Bytes → Entries → Entries
unfolding remove
remove_all [] es = es
remove_all (key ∷ keys) es = remove_all keys (remove key es)

unfoldable pub success : LoginLimiter → Bytes → Bytes → LoginLimiter
unfolding remove_all login_limiter_keys
success l ip username = record {
  max_failures = l.max_failures;
  window = l.window;
  entries = remove_all (login_limiter_keys ip username) l.entries;
}
