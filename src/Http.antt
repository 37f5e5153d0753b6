-- ===== src/Http.antt =====
-- internal/server/api/util.go: what the handlers read from a request, and the state of an agent. A
-- parameter of the query and a variable of the environment are given by their text, which is
-- empty when they are missing.
pub mod Middleware
pub mod Status
pub mod Laws
mod Tests
use bongsu.Prelude.{
  ℕ, zero, suc, ◌+◌, ◌-◌, ◌*◌, ◌^◌, Bool, true, false, not, ◌&&◌, ◌||◌, Option, none, some, List,
  [], ◌∷◌, leb, ltb, ◌==◌, if◌then◌else◌, map, drop_while,
}
use bongsu.Prelude.Int.{ℤ, pos, negsuc}
use mathlib.Core.List.{reverse}
use bongsu.Text.{Bytes, codes, equal, is_empty, one_of, to_lower, trim_space, within}
use bongsu.Vercmp.Deb.{atoi}
use bongsu.Notify.{env_int}

abbrev pub natural_or : ℕ → Option ℤ → ℕ
natural_or d none = d
natural_or d (some (negsuc n)) = d
natural_or d (some (pos n)) = n

-- With a default that is not negative, as all callers have it.
unfoldable pub int_param : Bytes → ℕ → ℕ
unfolding atoi
int_param v d = if is_empty v then d else natural_or d (atoi v)

abbrev pub true_words : List Bytes
true_words = codes "1" ∷ codes "true" ∷ codes "yes" ∷ codes "y" ∷ codes "on" ∷ []

unfoldable pub bool_query : Bytes → Bool
unfolding one_of to_lower trim_space
bool_query v = one_of (to_lower (trim_space v)) true_words

-- `n <= 0` of a setting.
abbrev pub positive_or : ℕ → ℤ → ℕ
positive_or d (negsuc n) = d
positive_or d (pos n) = if n == 0 then d else n

unfoldable pub max_limit : Bytes → ℕ
unfolding env_int
max_limit max_env = positive_or 1000 (env_int max_env (pos 1000))

unfoldable pub limit_param : Bytes → Bytes → ℕ → ℕ
unfolding int_param max_limit
limit_param v max_env d =
    let asked = int_param v d in
    let n = if asked == 0 then d else asked in
    if ltb (max_limit max_env) n then max_limit max_env else n

unfoldable pub max_offset : Bytes → ℕ
unfolding env_int
max_offset max_env = positive_or 1000000 (env_int max_env (pos 1000000))

unfoldable pub offset_param : Bytes → Bytes → ℕ
unfolding int_param max_offset
offset_param v max_env =
    let n = int_param v 0 in if ltb (max_offset max_env) n then max_offset max_env else n

-- `envBytes`: `strconv.ParseInt(v, 10, 64)` reads as `strconv.Atoi` does.
unfoldable pub env_bytes : Bytes → ℕ → ℕ
unfolding atoi
env_bytes v d = if is_empty v then d else elim (atoi v) [ none ↦ d | some n ↦ positive_or d n ]

unfoldable pub max_agent_report_bytes : Bytes → ℕ
unfolding env_int
max_agent_report_bytes v = positive_or (512 * 2 ^ 20) (env_int v (pos (512 * 2 ^ 20)))

abbrev pub is_file_char : ℕ → Bool
is_file_char c =
    within b'a' b'z' c
    || within b'A' b'Z' c
    || within b'0' b'9' c
    || c == b'-'
    || c == b'_'
    || c == b'.'

-- Of ASCII text, whose characters are bytes.
abbrev pub file_char : ℕ → ℕ
file_char c = if is_file_char c then c else b'-'

-- `strings.Trim(s, "-.")`
abbrev pub is_edge : ℕ → Bool
is_edge c = c == b'-' || c == b'.'

unfoldable pub sanitize_filename : Bytes → Bytes
unfolding drop_while trim_space
sanitize_filename s =
    let text = map file_char (trim_space s) in
    reverse (drop_while is_edge (reverse (drop_while is_edge text)))
