-- ===== src/Cvematch/Sbom.antt =====
-- internal/server/cvematch/sbom.go: what both formats share. `sha1_hex` is the hexadecimal SHA-1 of a
-- string, `uuid_sha1` the text of `uuid.NewSHA1` in the name space of URLs.
use bongsu.Prelude.{ℕ, suc, not, List, [], ◌∷◌, ◌++◌, ◌==◌, if◌then◌else◌}
use bongsu.Text.{Bytes, codes, equal, is_empty, trim_space}
use bongsu.Text.Decimal.{decimal}
use bongsu.Cvematch.{Package}

pub record Digests : Type 0 where
  pub sha1_hex : Bytes → Bytes
  pub uuid_sha1 : Bytes → Bytes

-- `stableRef`.
abbrev pub stable_ref : Digests → Bytes → Bytes
stable_ref d s = d.sha1_hex s

-- The first scan id that is not blank.
unfoldable pub latest_scan_id : List Package → Bytes
unfolding trim_space
latest_scan_id [] = []
latest_scan_id (pkg ∷ pkgs) =
    let rest = latest_scan_id pkgs in
    if is_empty (trim_space pkg.scan_id) then rest else trim_space pkg.scan_id

unfoldable pub default_spdx_name : Bytes → Bytes → Bytes
unfolding trim_space
default_spdx_name primary fallback =
    if not (is_empty (trim_space primary))
    then trim_space primary
    else if not (is_empty (trim_space fallback))
    then trim_space fallback
    else codes "unknown"

-- A map from strings to numbers, which are 0 at first.
abbrev pub Counts : Type 0
Counts = List (Bytes × ℕ)

unfoldable pub count_of : Bytes → Counts → ℕ
unfolding equal
count_of key [] = 0
count_of key ((k, n) ∷ seen) = let rest = count_of key seen in if equal k key then n else rest

-- `seen[base]++`
abbrev pub counted : Bytes → Counts → Counts
counted base seen = (base, suc (count_of base seen)) ∷ seen

-- The name of the n-th of its kind.
unfoldable pub numbered : Bytes → ℕ → Bytes
unfolding decimal
numbered base n = if n == 1 then base else base ++ b'-' ∷ decimal n

-- `uniqueBOMRef`: the reference, and what was seen.
unfoldable pub unique_bom_ref : Bytes → Counts → Bytes × Counts
unfolding count_of numbered
unique_bom_ref base seen =
    let next = counted base seen in (numbered base (count_of base next), next)
