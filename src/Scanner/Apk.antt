-- ===== src/Scanner/Apk.antt =====
-- internal/agent/scanner/apk.go: the `installed` database of apk.
pub mod RoundTrip
use bongsu.Prelude.{ℕ, ◌*◌, Bool, true, false, ◌||◌, List, [], ◌∷◌, ◌++◌, ◌==◌, if◌then◌else◌}
use bongsu.Text.{Bytes, codes, is_empty}
use bongsu.Scanner.{Package}
use bongsu.Scanner.Ecosystem.{ecosystem_for_type, purl_for_package}
use bongsu.Scanner.Lines.{Scanned, scan_lines}

-- The fields of the stanza that is read.
pub record Fields : Type 0 where
  pub name : Bytes
  pub version : Bytes
  pub arch : Bytes
  pub origin : Bytes

abbrev pub no_fields : Fields
no_fields = record { name = []; version = []; arch = []; origin = [] }

abbrev pub package_of : Fields → Package
package_of f = record {
  name = f.name;
  version = f.version;
  arch = f.arch;
  pkg_type = codes "alpine";
  ecosystem = ecosystem_for_type (codes "alpine");
  src_name = if is_empty f.origin then f.name else f.origin;
  purl = purl_for_package (codes "alpine") f.name f.version f.arch;
  source = codes "native-alpine";
  file_path = [];
}

-- What `flush` appends.
unfoldable pub flush : Fields → List Package
unfolding ecosystem_for_type purl_for_package
flush f = if is_empty f.name || is_empty f.version then [] else package_of f ∷ []

abbrev pub set_field : ℕ → Bytes → Fields → Fields
set_field key val f =
    if key == b'P'
    then record { name = val; version = f.version; arch = f.arch; origin = f.origin }
    else if key == b'V'
    then record { name = f.name; version = val; arch = f.arch; origin = f.origin }
    else if key == b'A'
    then record { name = f.name; version = f.version; arch = val; origin = f.origin }
    else if key == b'o'
    then record { name = f.name; version = f.version; arch = f.arch; origin = val }
    else f

-- A line that is not empty.
abbrev pub read_line : Bytes → Fields → Fields
read_line (key ∷ colon ∷ val) f = if colon == b':' then set_field key val f else f
read_line _ f = f

-- The loop and the last `flush`.
unfoldable pub parse_lines : List Bytes → Fields → List Package
unfolding flush
parse_lines [] f = flush f
parse_lines ([] ∷ ls) f = flush f ++ parse_lines ls no_fields
parse_lines ((c ∷ s) ∷ ls) f = parse_lines ls (read_line (c ∷ s) f)

abbrev pub max_line : ℕ
max_line = 1024 * 1024

-- The packages, and whether there is the error `bufio.ErrTooLong`.
unfoldable pub parse_apk_installed : Bytes → List Package × Bool
unfolding parse_lines scan_lines
parse_apk_installed file =
    let scanned = scan_lines max_line file in
    (parse_lines scanned.lines no_fields, scanned.too_long)
