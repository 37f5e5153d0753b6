-- ===== src/Scanner/Dpkg.antt =====
-- internal/agent/scanner/dpkg.go: the `status` database of dpkg.
pub mod RoundTrip
use bongsu.Prelude.{
  ℕ, zero, suc, ◌*◌, Bool, true, false, not, ◌&&◌, ◌||◌, Option, none, some, List, [], ◌∷◌, ◌++◌,
  ◌==◌, if◌then◌else◌, take, drop,
}
use bongsu.Text.{Bytes, codes, equal, is_empty, trim_space, contains}
use bongsu.Vercmp.Chars.{index_byte}
use bongsu.Scanner.{Package}
use bongsu.Scanner.Ecosystem.{ecosystem_for_type, purl_for_package}
use bongsu.Scanner.Lines.{Scanned, scan_lines}

-- The map `cur`: the assignments, the last one first.
abbrev pub Fields : Type 0
Fields = List (Bytes × Bytes)

unfoldable pub lookup : Bytes → Fields → Bytes
unfolding equal
lookup key [] = []
lookup key ((k, v) ∷ cur) = let rest = lookup key cur in if equal k key then v else rest

abbrev pub or_binary : Bytes → Bytes → Bytes
or_binary source binary = if is_empty source then binary else source

-- `source` is trimmed; the `(` may not be its first byte.
abbrev pub before_paren : Bytes → Option ℕ → Bytes
before_paren source none = source
before_paren source (some zero) = source
before_paren source (some (suc i)) = trim_space (take (suc i) source)

unfoldable pub dpkg_source_name : Bytes → Bytes → Bytes
unfolding trim_space index_byte
dpkg_source_name source binary =
    let trimmed = trim_space source in
    if is_empty trimmed
    then binary
    else or_binary (before_paren trimmed (index_byte trimmed b'(')) binary

abbrev pub package_of : Bytes → Fields → Package
package_of pkg_type cur =
    let name = lookup (codes "Package") cur in
    let version = lookup (codes "Version") cur in
    let arch = lookup (codes "Architecture") cur in
    record {
      name = name;
      version = version;
      arch = arch;
      pkg_type = pkg_type;
      ecosystem = ecosystem_for_type pkg_type;
      src_name = dpkg_source_name (lookup (codes "Source") cur) name;
      purl = purl_for_package pkg_type name version arch;
      source = codes "native-" ++ pkg_type;
      file_path = [];
    }

-- The stanza is skipped for its status.
abbrev pub is_not_installed : Bytes → Bool
is_not_installed st = not (is_empty st) && not (contains st (codes "installed"))

-- What `flush` appends.
unfoldable pub flush : Bytes → Fields → List Package
unfolding lookup dpkg_source_name ecosystem_for_type purl_for_package contains
flush pkg_type cur =
    if is_empty (lookup (codes "Package") cur) || is_empty (lookup (codes "Version") cur)
    then []
    else if is_not_installed (lookup (codes "Status") cur)
    then []
    else package_of pkg_type cur ∷ []

-- `strings.Index(line, ":")` of the line is `i`.
abbrev pub set_field : Bytes → Option ℕ → Fields → Fields
set_field line none cur = cur
set_field line (some zero) cur = cur
set_field line (some (suc i)) cur =
    (trim_space (take (suc i) line), trim_space (drop (suc (suc i)) line)) ∷ cur

-- A line that is not empty.
unfoldable pub read_line : Bytes → Fields → Fields
unfolding index_byte trim_space
read_line [] cur = cur
read_line (c ∷ s) cur =
    if c == b' ' || c == 9 then cur else set_field (c ∷ s) (index_byte (c ∷ s) b':') cur

-- The loop and the last `flush`.
unfoldable pub parse_lines : Bytes → List Bytes → Fields → List Package
unfolding flush read_line
parse_lines pkg_type [] cur = flush pkg_type cur
parse_lines pkg_type ([] ∷ ls) cur = flush pkg_type cur ++ parse_lines pkg_type ls []
parse_lines pkg_type ((c ∷ s) ∷ ls) cur = parse_lines pkg_type ls (read_line (c ∷ s) cur)

abbrev pub max_line : ℕ
max_line = 4 * 1024 * 1024

-- The packages. A line that is too long only ends the loop; other errors of reading are not
-- modelled.
unfoldable pub parse_dpkg_status : Bytes → Bytes → List Package
unfolding parse_lines scan_lines
parse_dpkg_status pkg_type file =
    let scanned = scan_lines max_line file in parse_lines pkg_type scanned.lines []
