-- ===== src/Scanner/Lang/Cargo.antt =====
-- internal/agent/scanner/lang.go: `parseCargoLock`.
pub mod RoundTrip
use bongsu.Prelude.{Bool, not, ◌&&◌, List, [], ◌∷◌, ◌++◌, if◌then◌else◌}
use bongsu.Text.{Bytes, codes, equal, has_prefix, is_empty, trim_space}
use bongsu.Scanner.{Package}
use bongsu.Scanner.Lang.{file_lines, new_lang_pkg, trim_double, trim_prefix}

-- The name behind the line, which waits for its version.
abbrev pub cargo_name : Bytes → Bytes → Bytes
cargo_name line name =
    if equal line (codes "[[package]]")
    then []
    else if has_prefix line (codes "name = ")
    then trim_double (trim_prefix line (codes "name = "))
    else if has_prefix line (codes "version = ")
    then []
    else name

abbrev pub is_version_of : Bytes → Bytes → Bool
is_version_of line name = has_prefix line (codes "version = ") && not (is_empty name)

unfoldable pub parse_cargo_lines : Bytes → List Bytes → Bytes → List Package
unfolding equal has_prefix trim_space trim_double trim_prefix new_lang_pkg
parse_cargo_lines path [] name = []
parse_cargo_lines path (l ∷ ls) name =
    let line = trim_space l in
    let rest = parse_cargo_lines path ls (cargo_name line name) in
    if is_version_of line name
    then new_lang_pkg name (trim_double (trim_prefix line (codes "version = "))) (codes "cargo")
        path
      ++ rest
    else rest

unfoldable pub parse_cargo_lock : Bytes → Bytes → List Package
unfolding parse_cargo_lines file_lines
parse_cargo_lock path content = parse_cargo_lines path (file_lines content) []
