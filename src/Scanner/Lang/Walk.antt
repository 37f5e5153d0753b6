-- ===== src/Scanner/Lang/Walk.antt =====
-- internal/agent/scanner/lang.go: the manifests in a tree of files, `ScanLanguagePackages`. The tree is what
-- `filepath.WalkDir` visits, its entries in the order of the names; a directory that cannot be read
-- has no entries, and a link is a file. The root is a clean path. The maps of a lock file are lists, in
-- the order in which the loops over them go.
use bongsu.Prelude.{
  ℕ, suc, ◌-◌, ◌==◌, Bool, not, ◌&&◌, ◌||◌, Option, none, some, List, [], ◌∷◌, ◌++◌, drop,
  if◌then◌else◌, length, ltb,
}
use bongsu.Prelude.Int.{ℤ, pos, negsuc}
use bongsu.Text.{Bytes, codes, contains, equal, has_prefix, is_empty, one_of, to_lower}
use bongsu.Scanner.{Package}
use bongsu.Scanner.Lang.{
  new_lang_pkg, parse_gemfile_lock, parse_go_mod, parse_python_dist_info, parse_requirements_txt,
}
use bongsu.Scanner.Lang.Cargo.{parse_cargo_lock}

-- The names with their versions of `packages` and of `dependencies`.
pub record NpmLock : Type 0 where
  pub packages : List (Bytes × Bytes)
  pub dependencies : List (Bytes × Bytes)

-- `json.Unmarshal` into the name and the version of a package.json, and into a lock file.
pub record Json : Type 0 where
  pub package_json : Bytes → Option (Bytes × Bytes)
  pub npm_lock : Bytes → Option NpmLock

-- The text behind the last `sep`, or all of it.
unfoldable pub behind_last : Bytes → Bytes → Bytes → Bytes
unfolding has_prefix
behind_last sep whole [] = whole
behind_last sep whole (c ∷ s) =
    behind_last sep (if has_prefix (c ∷ s) sep then drop (length sep) (c ∷ s) else whole) s

unfoldable pub npm_packages : Bytes → List (Bytes × Bytes) → List Package
unfolding behind_last new_lang_pkg
npm_packages path [] = []
npm_packages path ((key, version) ∷ ps) =
    new_lang_pkg (behind_last (codes "node_modules/") key key) version (codes "npm") path
    ++ npm_packages path ps

unfoldable pub npm_dependencies : Bytes → List (Bytes × Bytes) → List Package
unfolding new_lang_pkg
npm_dependencies path [] = []
npm_dependencies path ((name, version) ∷ ps) =
    new_lang_pkg name version (codes "npm") path ++ npm_dependencies path ps

abbrev pub locked : Bytes → Option NpmLock → List Package
locked path none = []
locked path (some lock) = npm_packages path lock.packages ++ npm_dependencies path lock.dependencies

abbrev pub own_package : Bytes → Option (Bytes × Bytes) → List Package
own_package path none = []
own_package path (some (name, version)) = new_lang_pkg name version (codes "npm") path

abbrev pub from_content : (Bytes → List Package) → Option Bytes → List Package
from_content parse none = []
from_content parse (some content) = parse content

module _ (json : Json) where
  unfoldable pub parse_manifest : Bytes → Bytes → Option Bytes → List Package
  unfolding equal contains npm_packages npm_dependencies parse_requirements_txt parse_go_mod
      parse_cargo_lock parse_gemfile_lock parse_python_dist_info
  parse_manifest path name content =
      if equal name (codes "package-lock.json")
      then from_content (λ (text : Bytes). locked path (json.npm_lock text)) content
      else if equal name (codes "package.json")
      then from_content (λ (text : Bytes). own_package path (json.package_json text)) content
      else if equal name (codes "requirements.txt")
      then from_content (parse_requirements_txt path) content
      else if equal name (codes "go.mod")
      then from_content (parse_go_mod path) content
      else if equal name (codes "Cargo.lock")
      then from_content (parse_cargo_lock path) content
      else if equal name (codes "Gemfile.lock")
      then from_content (parse_gemfile_lock path) content
      else if equal name (codes "METADATA") && contains path (codes ".dist-info")
      then from_content (parse_python_dist_info path) content
      else []

unfoldable pub skip_dir : Bytes → Bool
unfolding one_of
skip_dir name = one_of name (
    codes ".git"
    ∷ codes ".svn"
    ∷ codes ".hg"
    ∷ codes ".cache"
    ∷ codes "__pycache__"
    ∷ codes ".terraform"
    ∷ codes ".gradle"
    ∷ codes ".m2"
    ∷ [])

unfoldable pub system_pseudo_dir : Bytes → Bool
unfolding one_of
system_pseudo_dir name = one_of name (codes "proc" ∷ codes "sys" ∷ codes "dev" ∷ codes "run" ∷ [])

-- `strings.Count(path, "/")`
abbrev pub separators : Bytes → ℕ
separators [] = 0
separators (c ∷ s) = if c == b'/' then suc (separators s) else separators s

-- `filepath.Join` of a directory and the name of an entry.
abbrev pub path_of : Bytes → Bytes → Bytes
path_of dir name = if equal dir (codes "/") then b'/' ∷ name else dir ++ b'/' ∷ name

abbrev pub depth_or_default : ℤ → ℕ
depth_or_default (negsuc n) = 12
depth_or_default (pos n) = if n == 0 then 12 else n

-- The directory is not entered. A path below the root has no fewer separators than the root.
unfoldable pub is_pruned : Bytes → ℕ → Bytes → Bytes → Bool
unfolding skip_dir system_pseudo_dir
is_pruned root max_depth path name =
    let depth = separators path - separators root in
    (depth == 1 && system_pseudo_dir name) || skip_dir name || ltb max_depth depth

mutual
  pub data Tree : Type 0 where
    file : Option Bytes → Tree
    directory : Nodes → Tree

  pub data Nodes : Type 0 where
    none_left : Nodes
    entry : Bytes → Tree → Nodes → Nodes

module _ (json : Json) (root : Bytes) (max_depth : ℕ) where
  unfoldable mutual
    unfolding parse_manifest is_pruned equal

    pub walk : Bytes → Bytes → Tree → List Package
    walk path name (file content) = parse_manifest json path name content
    walk path name (directory entries) =
        let found = walk_nodes path entries in
        if is_pruned root max_depth path name then [] else found

    pub walk_nodes : Bytes → Nodes → List Package
    walk_nodes path none_left = []
    walk_nodes path (entry name tree more) =
        walk (path_of path name) name tree ++ walk_nodes path more

-- The key of a package in the map `seen`, whose fields a byte 0 separates.
abbrev pub package_key : Package → Bytes
package_key p = p.ecosystem ++ 0 ∷ to_lower p.name ++ 0 ∷ p.version

unfoldable pub dedupe_from : List Bytes → List Package → List Package
unfolding one_of to_lower
dedupe_from seen [] = []
dedupe_from seen (p ∷ ps) =
    let is_new = not (one_of (package_key p) seen) in
    let rest = dedupe_from (if is_new then package_key p ∷ seen else seen) ps in
    if is_new then p ∷ rest else rest

unfoldable pub dedupe_lang_packages : List Package → List Package
unfolding dedupe_from
dedupe_lang_packages ps = dedupe_from [] ps

abbrev pub or_slash : Bytes → Bytes
or_slash root = if is_empty root then codes "/" else root

-- `root_name` is the name of the root itself.
unfoldable pub scan_language_packages : Json → Bytes → Bytes → ℤ → Tree → List Package
unfolding walk dedupe_lang_packages
scan_language_packages json root root_name max_depth tree =
    dedupe_lang_packages
      (walk json (or_slash root) (depth_or_default max_depth) (or_slash root) root_name tree)
