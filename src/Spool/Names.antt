-- ===== src/Spool/Names.antt =====
-- internal/agent/reporter/spool.go: the names of spool files and the cap. A scan id is the list of
-- its runes, and a time the number of nanoseconds since 1970, which fits into 20 digits.
pub mod Order
pub mod Suffix
use bongsu.Prelude.{
  ℕ, zero, suc, ◌+◌, ◌/◌, ◌%◌, ◌^◌, Bool, true, false, ◌||◌, Option, none, some, List, [], ◌∷◌,
  ◌++◌, ltb, ◌==◌, if◌then◌else◌, map,
}
use bongsu.Prelude.Int.{ℤ, pos, negsuc}
use bongsu.Text.{Bytes, codes, within, is_empty, trim_space}
use bongsu.Vercmp.Deb.{atoi}

abbrev pub default_spool_max : ℕ
default_spool_max = 20

abbrev pub positive_or_default : Option ℤ → ℕ
positive_or_default (some (pos (suc n))) = suc n
positive_or_default _ = default_spool_max

-- The variable BONGSU_AGENT_SPOOL_MAX; one that is not set is empty. The result is positive.
unfoldable pub spool_max_from_env : Bytes → ℕ
unfolding atoi
spool_max_from_env v = if is_empty v then default_spool_max else positive_or_default (atoi v)

abbrev pub safe_rune : ℕ → ℕ
safe_rune r =
    if within b'a' b'z' r || within b'A' b'Z' r || within b'0' b'9' r || r == b'-' || r == b'_'
    then r
    else b'_'

abbrev pub or_noid : List ℕ → List ℕ
or_noid s = if is_empty s then codes "noid" else s

unfoldable pub sanitize_scan_id : List ℕ → Bytes
unfolding trim_space
sanitize_scan_id scan_id = map safe_rune (or_noid (trim_space scan_id))

-- `%0wd` of a number below `10 ^ w`.
unfoldable pub padded : ℕ → ℕ → Bytes
padded zero n = []
padded (suc w) n = (b'0' + n / 10 ^ w) ∷ padded w (n % 10 ^ w)

unfoldable pub spool_file_name : ℕ → List ℕ → Bytes
unfolding padded sanitize_scan_id
spool_file_name t scan_id = padded 20 t ++ b'-' ∷ sanitize_scan_id scan_id ++ codes ".json"
