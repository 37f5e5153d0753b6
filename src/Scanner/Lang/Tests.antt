-- ===== src/Scanner/Lang/Tests.antt =====
-- The parsers of lock files and the walk at concrete files.
use bongsu.Prelude.{◌≡◌, refl, true, none, some, List, [], ◌∷◌, map}
use bongsu.Prelude.Int.{pos}
use bongsu.Text.{Bytes, codes}
use bongsu.Text.Distinct.{all_distinct}
use bongsu.Scanner.{Package}
use bongsu.Scanner.Lang.{
  parse_gemfile_lock, parse_go_mod, parse_python_dist_info, parse_requirements_txt,
}
use bongsu.Scanner.Lang.Cargo.{parse_cargo_lock}
use bongsu.Scanner.Lang.Cargo.RoundTrip.{
  Crate, crate_package, print_cargo_lock, parse_cargo_lock-print_cargo_lock,
}
use bongsu.Scanner.Lang.Walk.{
  Json, Tree, file, directory, none_left, entry, walk, package_key, scan_language_packages,
}
use bongsu.Scanner.Lang.Distinct.{first_with, scan_language_packages-distinct}

abbrev named : Package → Bytes × Bytes
named p = (p.name, p.version)

requirements_test :
    map named (
      parse_requirements_txt []
        (codes "# pins\nflask==2.0 ; x\n-r base\nrequests>=1\nnumpy===1.5\n"))
    ≡ (codes "flask", codes "2.0") ∷ (codes "numpy", codes "=1.5") ∷ []
unfolding parse_requirements_txt
requirements_test = refl

dist_info_test :
    map named (parse_python_dist_info [] (codes "Name: six\r\nVersion: 1.16\r\n\r\nName: other\n"))
    ≡ (codes "six", codes "1.16") ∷ []
unfolding parse_python_dist_info
dist_info_test = refl

-- A comment in a block of requirements is taken for a module.
go_mod_test :
    map named (
      parse_go_mod [] (
        codes
          "module m\nrequire (\n\ta/b v1.2\n\t// kept for tests\n)\nrequire c v3 // indirect\n"))
    ≡ (codes "a/b", codes "1.2") ∷ (codes "//", codes "kept") ∷ (codes "c", codes "3") ∷ []
unfolding parse_go_mod
go_mod_test = refl

gemfile_test :
    map named (
      parse_gemfile_lock []
        (codes "GEM\n  specs:\n    rack (2.2)\n      dep (> 1)\n    rake (13)\n\n    no (1)\n"))
    ≡ (codes "rack", codes "2.2") ∷ (codes "rake", codes "13") ∷ []
unfolding parse_gemfile_lock
gemfile_test = refl

abbrev no_json : Json
no_json = record { package_json = λ text. none; npm_lock = λ text. none }

abbrev cargo_text : Bytes
cargo_text = codes "[[package]]\nname = \"rand\"\nversion = \"0.8\"\n"

abbrev cargo_dir : Tree
cargo_dir = directory (entry (codes "Cargo.lock") (file (some cargo_text)) none_left)

-- The directories a and b have the same lock file.
abbrev two_copies : Tree
two_copies = directory (entry (codes "a") cargo_dir (entry (codes "b") cargo_dir none_left))

copies_test :
    map
      (λ (p : Package). p.file_path)
      (scan_language_packages no_json (codes "/srv") (codes "srv") (pos 0) two_copies)
    ≡ codes "/srv/a/Cargo.lock" ∷ []
unfolding scan_language_packages
copies_test = refl

scan_language_packages-distinct_example :
    let found = scan_language_packages no_json (codes "/srv") (codes "srv") (pos 0) two_copies in
    let all = walk no_json (codes "/srv") 12 (codes "/srv") (codes "srv") two_copies in
    (all_distinct (map package_key found) ≡ true)
    × ((k : Bytes) → first_with k found ≡ first_with k all)
scan_language_packages-distinct_example =
    scan_language_packages-distinct no_json (codes "/srv") (codes "srv") (pos 0) two_copies

-- Below the root "/", whose own path has a separator, /proc has the depth 0 and is walked, while
-- /home/run has the depth 1 and is not.
abbrev host : Tree
host = directory (
    entry (codes "home") (directory (entry (codes "run") cargo_dir none_left))
      (entry (codes "proc") cargo_dir none_left))

host_root_test :
    map (λ (p : Package). p.file_path) (walk no_json (codes "/") 12 (codes "/") (codes "/") host)
    ≡ codes "/proc/Cargo.lock" ∷ []
unfolding walk
host_root_test = refl

-- Below another root it is as meant.
other_root_test :
    map
      (λ (p : Package). p.file_path)
      (walk no_json (codes "/mnt") 12 (codes "/mnt") (codes "mnt") host)
    ≡ codes "/mnt/home/run/Cargo.lock" ∷ []
unfolding walk
other_root_test = refl

abbrev crates : List Crate
crates = (codes "rand", codes "0.8.5") ∷ (codes "serde", codes "1.0") ∷ []

parse_cargo_lock-print_cargo_lock_example :
    parse_cargo_lock (codes "/srv/Cargo.lock") (print_cargo_lock crates)
    ≡ map (crate_package (codes "/srv/Cargo.lock")) crates
parse_cargo_lock-print_cargo_lock_example =
    parse_cargo_lock-print_cargo_lock (codes "/srv/Cargo.lock") crates refl
