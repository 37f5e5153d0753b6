-- ===== src/Scanner/Lang.antt =====
-- internal/agent/scanner/lang.go: the packages of languages, from manifests and lock files. A file that
-- cannot be opened, or lies outside of the root, has no content. encoding/json is a parameter.
pub mod Cargo
pub mod Walk
pub mod Distinct
mod Tests
use mathlib.Core.List.{reverse}
use bongsu.Prelude.{
  ℕ, ◌*◌, ◌==◌, Bool, true, false, not, ◌&&◌, ◌||◌, Option, none, some, List, [], ◌∷◌, ◌++◌, drop,
  drop_while, if◌then◌else◌, length, take, take_while,
}
use bongsu.Text.{Bytes, codes, contains, equal, fields, has_prefix, is_empty, trim_space}
use bongsu.Vercmp.Chars.{last_index_byte}
use bongsu.Scanner.{Package}
use bongsu.Scanner.Ecosystem.{ecosystem_for_type, purl_for_package}
use bongsu.Scanner.Lines.{scan_lines}

-- What a parser appends for a name and a version: nothing when one of them is empty.
unfoldable pub new_lang_pkg : Bytes → Bytes → Bytes → Bytes → List Package
unfolding trim_space ecosystem_for_type purl_for_package
new_lang_pkg name version pkg_type path =
    let n = trim_space name in
    let v = trim_space version in
    if is_empty n || is_empty v
    then []
    else record {
      name = n;
      version = v;
      arch = [];
      pkg_type = pkg_type;
      ecosystem = ecosystem_for_type pkg_type;
      src_name = [];
      purl = purl_for_package pkg_type n v [];
      source = codes "native-lang";
      file_path = path;
    }
      ∷ []

-- The size of a line that `bufio.NewScanner` takes. What stands behind a longer line is not read, and
-- the error is not looked at.
abbrev pub max_token : ℕ
max_token = 64 * 1024

unfoldable pub file_lines : Bytes → List Bytes
unfolding scan_lines
file_lines content = (scan_lines max_token content).lines

-- `strings.Index(s, sep)`, as the parts before and behind.
unfoldable pub cut_text : Bytes → Bytes → Option (Bytes × Bytes)
unfolding has_prefix
cut_text [] sep = if is_empty sep then some ([], []) else none
cut_text (c ∷ s) sep =
    let rest = cut_text s sep in
    if has_prefix (c ∷ s) sep
    then some ([], drop (length sep) (c ∷ s))
    else elim rest [ none ↦ none | some (a, b) ↦ some (c ∷ a, b) ]

-- `strings.TrimPrefix`.
unfoldable pub trim_prefix : Bytes → Bytes → Bytes
unfolding has_prefix
trim_prefix s prefix = if has_prefix s prefix then drop (length prefix) s else s

-- ``strings.Trim(s, `"`)``.
unfoldable pub trim_double : Bytes → Bytes
unfolding drop_while
trim_double s = let is = λ (c : ℕ). c == b'"' in reverse (drop_while is (reverse (drop_while is s)))

abbrev pub is_comment : Bytes → Bool
is_comment line = is_empty line || has_prefix line (codes "#") || has_prefix line (codes "-")

-- A pinned requirement: the version ends at a space, a semicolon or a number sign.
abbrev pub pinned : Bytes → Option (Bytes × Bytes) → List Package
pinned path none = []
pinned path (some ([], rest)) = []
pinned path (some (c ∷ name, rest)) =
    new_lang_pkg (trim_space (c ∷ name))
      (take_while (λ (d : ℕ). not (d == b' ' || d == b';' || d == b'#')) (trim_space rest))
      (codes "pypi") path

unfoldable pub requirement : Bytes → Bytes → List Package
unfolding trim_space has_prefix cut_text take_while new_lang_pkg
requirement path raw =
    let line = trim_space raw in
    if is_comment line then [] else pinned path (cut_text line (codes "=="))

unfoldable pub parse_requirements_lines : Bytes → List Bytes → List Package
unfolding requirement
parse_requirements_lines path [] = []
parse_requirements_lines path (l ∷ ls) = requirement path l ++ parse_requirements_lines path ls

unfoldable pub parse_requirements_txt : Bytes → Bytes → List Package
unfolding parse_requirements_lines file_lines
parse_requirements_txt path content = parse_requirements_lines path (file_lines content)

-- The headers, up to the first empty line: the last name and version.
abbrev pub header_line : Bytes → Bytes × Bytes → Bytes × Bytes
header_line line (name, version) =
    if has_prefix line (codes "Name:")
    then (trim_space (trim_prefix line (codes "Name:")), version)
    else if has_prefix line (codes "Version:")
    then (name, trim_space (trim_prefix line (codes "Version:")))
    else (name, version)

unfoldable pub dist_headers : List Bytes → Bytes × Bytes → Bytes × Bytes
unfolding has_prefix trim_space trim_prefix
dist_headers [] h = h
dist_headers ([] ∷ ls) h = h
dist_headers ((c ∷ l) ∷ ls) h = dist_headers ls (header_line (c ∷ l) h)

unfoldable pub parse_python_dist_info : Bytes → Bytes → List Package
unfolding dist_headers file_lines new_lang_pkg
parse_python_dist_info path content =
    let (name, version) = dist_headers (file_lines content) ([], []) in
    new_lang_pkg name version (codes "pypi") path

-- A module at two fields.
abbrev pub go_module : Bytes → List Bytes → List Package
go_module path (name ∷ version ∷ more) =
    new_lang_pkg name (trim_prefix version (codes "v")) (codes "go") path
go_module path _ = []

abbrev pub behind_first : List Bytes → List Bytes
behind_first [] = []
behind_first (f ∷ fs) = fs

abbrev pub has_two : List Bytes → Bool
has_two (f ∷ g ∷ fs) = true
has_two _ = false

unfoldable pub parse_go_lines : Bytes → List Bytes → Bool → List Package
unfolding trim_space has_prefix equal fields trim_prefix new_lang_pkg
parse_go_lines path [] in_require = []
parse_go_lines path (l ∷ ls) in_require =
    let line = trim_space l in
    let fs = fields line in
    let opens = has_prefix line (codes "require (") in
    let closes = in_require && equal line (codes ")") in
    let rest = parse_go_lines path ls (opens || (in_require && not closes)) in
    if opens || closes
    then rest
    else if in_require && has_two fs
    then go_module path fs ++ rest
    else if has_prefix line (codes "require ")
    then go_module path (behind_first fs) ++ rest
    else rest

unfoldable pub parse_go_mod : Bytes → Bytes → List Package
unfolding parse_go_lines file_lines
parse_go_mod path content = parse_go_lines path (file_lines content) false

-- An entry with an indentation of four spaces, as "    name (version)".
abbrev pub gem_version : Bytes → Bytes → Bytes → Option ℕ → List Package
gem_version path name rest none = []
gem_version path name rest (some i) = new_lang_pkg name (take i rest) (codes "gem") path

abbrev pub gem_entry : Bytes → Option (Bytes × Bytes) → List Package
gem_entry path none = []
gem_entry path (some ([], rest)) = []
gem_entry path (some (c ∷ name, rest)) =
    gem_version path (c ∷ name) rest (last_index_byte rest b')')

abbrev pub is_gem_line : Bytes → Bool
is_gem_line raw = has_prefix raw (codes "    ") && not (has_prefix raw (codes "      "))

unfoldable pub parse_gem_lines : Bytes → List Bytes → Bool → List Package
unfolding trim_space has_prefix equal cut_text last_index_byte new_lang_pkg
parse_gem_lines path [] in_specs = []
parse_gem_lines path (raw ∷ ls) in_specs =
    let trimmed = trim_space raw in
    let starts = equal trimmed (codes "specs:") in
    let ends = not (is_gem_line raw) && (is_empty trimmed || not (has_prefix raw (codes " "))) in
    let rest = parse_gem_lines path ls (starts || (in_specs && not ends)) in
    if starts || not in_specs || not (is_gem_line raw)
    then rest
    else gem_entry path (cut_text trimmed (codes " (")) ++ rest

unfoldable pub parse_gemfile_lock : Bytes → Bytes → List Package
unfolding parse_gem_lines file_lines
parse_gemfile_lock path content = parse_gem_lines path (file_lines content) false
