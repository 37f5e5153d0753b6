-- ===== src/Scanner/Lang/Cargo/RoundTrip.antt =====
-- A lock file of Cargo is read back.
use bongsu.Prelude.{
  ℕ, ◌+◌, ◌≡◌, refl, ap, ◌∙◌, Bool, true, false, not, ◌&&◌, ◌||◌, List, [], ◌∷◌, ◌++◌, map, arith,
  ltb, ◌==◌, length, all_of, and_split, drop_while,
}
use bongsu.Text.{Bytes, codes, equal, has_prefix, is_empty, is_space, trim_space}
use bongsu.Text.Pieces.{lacks, lacks-append}
use bongsu.Text.Trim.{keeps, trim-between, trim-keeps, trim-around}
use bongsu.Scanner.{Package}
use bongsu.Scanner.Ecosystem.{ecosystem_for_type, purl_for_package}
use bongsu.Scanner.Lines.{Scanned}
use bongsu.Scanner.Lines.Laws.{unlines, is_line, scan_lines-unlines}
use bongsu.Scanner.Lang.{max_token, file_lines, new_lang_pkg, trim_double, trim_prefix}
use bongsu.Scanner.Lang.Cargo.{parse_cargo_lines, parse_cargo_lock}

-- A name and a version.
abbrev pub Crate : Type 0
Crate = Bytes × Bytes

abbrev pub quoted : Bytes → Bytes
quoted s = b'"' ∷ s ++ b'"' ∷ []

abbrev pub name_line : Bytes → Bytes
name_line name = codes "name = " ++ quoted name

abbrev pub version_line : Bytes → Bytes
version_line version = codes "version = " ++ quoted version

-- The lines of the tables, each with an empty line before it.
unfoldable pub lock_lines : List Crate → List Bytes
lock_lines [] = []
lock_lines ((name, version) ∷ cs) =
    [] ∷ codes "[[package]]" ∷ name_line name ∷ version_line version ∷ lock_lines cs

unfoldable pub print_cargo_lock : List Crate → Bytes
unfolding unlines lock_lines
print_cargo_lock cs = unlines (lock_lines cs)

-- Neither white space nor a quote.
abbrev pub is_word_byte : ℕ → Bool
is_word_byte c = not (is_space c || c == b'"')

-- The text has bytes, of words alone, and fits on a line.
abbrev pub is_word : Bytes → Bool
is_word s = not (is_empty s) && (all_of is_word_byte s && ltb (length s + 12) max_token)

abbrev pub is_crate : Crate → Bool
is_crate (name, version) = is_word name && is_word version

-- The package of a crate.
abbrev pub crate_package : Bytes → Crate → Package
crate_package path (name, version) = record {
  name = name;
  version = version;
  arch = [];
  pkg_type = codes "cargo";
  ecosystem = ecosystem_for_type (codes "cargo");
  src_name = [];
  purl = purl_for_package (codes "cargo") name version [];
  source = codes "native-lang";
  file_path = path;
}

keeps_spaces : (s : Bytes) → all_of is_word_byte s ≡ true → keeps is_space s ≡ true
keeps_spaces [] h = refl
keeps_spaces (c ∷ s) h = ground (arith, keeps_spaces s, h)

keeps_quotes : (s : Bytes) → all_of is_word_byte s ≡ true → keeps (λ (c : ℕ). c == b'"') s ≡ true
keeps_quotes [] h = refl
keeps_quotes (c ∷ s) h = ground (arith, keeps_quotes s, h)

trim_space-word : (s : Bytes) → all_of is_word_byte s ≡ true → trim_space s ≡ s
unfolding trim_space
trim_space-word s h = trim-keeps is_space s (keeps_spaces s h)

trim_space-name_line : (s : Bytes) → trim_space (name_line s) ≡ name_line s
unfolding trim_space
trim_space-name_line s = trim-between is_space b'n' (codes "ame = " ++ b'"' ∷ s) b'"' refl refl

trim_space-version_line : (s : Bytes) → trim_space (version_line s) ≡ version_line s
unfolding trim_space
trim_space-version_line s =
    trim-between is_space b'v' (codes "ersion = " ++ b'"' ∷ s) b'"' refl refl

trim_double-quoted : (s : Bytes) → all_of is_word_byte s ≡ true → trim_double (quoted s) ≡ s
unfolding trim_double
trim_double-quoted s h = trim-around (λ (c : ℕ). c == b'"') s b'"' (keeps_quotes s h) refl

new_lang_pkg-is_crate :
    (path name version : Bytes)
    → is_crate (name, version) ≡ true
    → new_lang_pkg name version (codes "cargo") path ≡ crate_package path (name, version) ∷ []
unfolding new_lang_pkg
new_lang_pkg-is_crate path name version h =
    let (n, v) = and_split (is_word name) h in
    let (n_full, n_rest) = and_split (not (is_empty name)) n in
    let (v_full, v_rest) = and_split (not (is_empty version)) v in
    let here = trim_space-word name ((and_split (all_of is_word_byte name) n_rest).0) in
    let there = trim_space-word version ((and_split (all_of is_word_byte version) v_rest).0) in
    let full : (is_empty name || is_empty version) ≡ false = ground (arith, n_full, v_full) in
    rw (here, there) rw full refl

-- A crate's lines have no end of line in them.
lacks_end :
    (b : ℕ) (s : Bytes) → is_space b ≡ true → all_of is_word_byte s ≡ true → lacks b s ≡ true
lacks_end b [] is h = refl
lacks_end b (c ∷ s) is h = ground (arith, lacks_end b s is, h)

quoted-is_line :
    (b : ℕ) (s : Bytes)
    → is_space b ≡ true
    → is_word s ≡ true
    → (b == b'"') ≡ false
    → lacks b (s ++ b'"' ∷ []) ≡ true
quoted-is_line b s is h other =
    let (full, rest) = and_split (not (is_empty s)) h in
    lacks-append b s (b'"' ∷ []) (lacks_end b s is ((and_split (all_of is_word_byte s) rest).0))
      (ground (arith, other))

length-quoted : (s : Bytes) → length (s ++ b'"' ∷ []) ≡ length s + 1
length-quoted [] = refl
length-quoted (c ∷ s) = omega (arith, length-quoted s)

is_word-fits : (s : Bytes) → is_word s ≡ true → ltb (length s + 12) max_token ≡ true
is_word-fits s h = (and_split (all_of is_word_byte s) ((and_split (not (is_empty s)) h).1)).1

is_line-name_line : (s : Bytes) → is_word s ≡ true → is_line max_token (name_line s) ≡ true
is_line-name_line s h =
    rw (quoted-is_line 10 s refl h refl, quoted-is_line 13 s refl h refl)
      (ground (arith, length-quoted s, is_word-fits s h))

is_line-version_line : (s : Bytes) → is_word s ≡ true → is_line max_token (version_line s) ≡ true
is_line-version_line s h =
    rw (quoted-is_line 10 s refl h refl, quoted-is_line 13 s refl h refl)
      (ground (arith, length-quoted s, is_word-fits s h))

lock_lines-are_lines :
    (cs : List Crate)
    → all_of is_crate cs ≡ true
    → all_of (is_line max_token) (lock_lines cs) ≡ true
unfolding lock_lines
lock_lines-are_lines [] h = refl
lock_lines-are_lines ((n, v) ∷ cs) h =
    let (here, rest) = and_split (is_crate (n, v)) h in
    let (word_n, word_v) = and_split (is_word n) here in
    rw (is_line-name_line n word_n, is_line-version_line v word_v, lock_lines-are_lines cs rest)
      refl

parse_cargo_lines-name_line :
    (path n : Bytes) (ls : List Bytes) (name : Bytes)
    → all_of is_word_byte n ≡ true
    → parse_cargo_lines path (name_line n ∷ ls) name ≡ parse_cargo_lines path ls n
unfolding parse_cargo_lines equal has_prefix trim_prefix
parse_cargo_lines-name_line path n ls name h =
    rw (trim_space-name_line n) (ap (parse_cargo_lines path ls) (trim_double-quoted n h))

parse_cargo_lines-version_line :
    (path v : Bytes) (ls : List Bytes) (name : Bytes)
    → is_crate (name, v) ≡ true
    → parse_cargo_lines path (version_line v ∷ ls) name
      ≡ crate_package path (name, v) ∷ parse_cargo_lines path ls []
unfolding parse_cargo_lines equal has_prefix trim_prefix
parse_cargo_lines-version_line path v ls name h =
    let (word_n, word_v) = and_split (is_word name) h in
    let (full, rest) = and_split (not (is_empty name)) word_n in
    let (full_v, rest_v) = and_split (not (is_empty v)) word_v in
    let version = trim_double-quoted v ((and_split (all_of is_word_byte v) rest_v).0) in
    rw (trim_space-version_line v) rw (full, version, new_lang_pkg-is_crate path name v h) refl

-- The empty line and the head of a table.
parse_cargo_lines-table :
    (path name : Bytes) (ls : List Bytes)
    → parse_cargo_lines path ([] ∷ codes "[[package]]" ∷ ls) name ≡ parse_cargo_lines path ls []
unfolding parse_cargo_lines equal has_prefix trim_space drop_while
parse_cargo_lines-table path name ls = refl

parse_cargo_lines-lock_lines :
    (path : Bytes) (cs : List Crate) (name : Bytes)
    → all_of is_crate cs ≡ true
    → parse_cargo_lines path (lock_lines cs) name ≡ map (crate_package path) cs
unfolding lock_lines parse_cargo_lines
parse_cargo_lines-lock_lines path [] name h = refl
parse_cargo_lines-lock_lines path ((n, v) ∷ cs) name h =
    let (here, rest) = and_split (is_crate (n, v)) h in
    let (full, word) = and_split (not (is_empty n)) ((and_split (is_word n) here).0) in
    parse_cargo_lines-table path name (name_line n ∷ version_line v ∷ lock_lines cs)
    ∙ parse_cargo_lines-name_line path n (version_line v ∷ lock_lines cs) []
        ((and_split (all_of is_word_byte n) word).0)
    ∙ parse_cargo_lines-version_line path v (lock_lines cs) n here
    ∙ ap (◌∷◌ (crate_package path (n, v))) (parse_cargo_lines-lock_lines path cs [] rest)

-- A lock file written as one table for each crate, with an empty line before it and the quoted
-- name and version in it, which are not empty, have no white space and no quotes and fit on a
-- line, is parsed to the packages of the crates, in their order.
pub parse_cargo_lock-print_cargo_lock :
    (path : Bytes) (cs : List Crate)
    → all_of is_crate cs ≡ true
    → parse_cargo_lock path (print_cargo_lock cs) ≡ map (crate_package path) cs
unfolding parse_cargo_lock print_cargo_lock file_lines
parse_cargo_lock-print_cargo_lock path cs h =
    ap (λ (r : Scanned). parse_cargo_lines path r.lines [])
      (scan_lines-unlines max_token (lock_lines cs) (lock_lines-are_lines cs h))
    ∙ parse_cargo_lines-lock_lines path cs [] h
