-- ===== src/Scanner/Apk/RoundTrip.antt =====
-- What apk writes into its database is read back.
use bongsu.Prelude.{
  ℕ, ◌+◌, ◌≡◌, refl, ap, ◌∙◌, Bool, true, false, not, ◌&&◌, ◌||◌, List, [], ◌∷◌, ◌++◌, map, arith,
  ltb, length, all_of, and_split,
}
use bongsu.Text.{Bytes, is_empty}
use bongsu.Text.Pieces.{lacks}
use bongsu.Scanner.Lines.Laws.{unlines, is_line, scan_lines-unlines}
use bongsu.Scanner.Apk.{
  Fields, no_fields, package_of, flush, parse_lines, max_line, parse_apk_installed,
}

abbrev pub field_line : ℕ → Bytes → Bytes
field_line key val = key ∷ b':' ∷ val

-- The lines of stanzas, with the empty line behind each.
unfoldable pub stanza_lines : List Fields → List Bytes
stanza_lines [] = []
stanza_lines (f ∷ fs) =
    field_line b'P' f.name
    ∷ field_line b'V' f.version
    ∷ field_line b'A' f.arch
    ∷ field_line b'o' f.origin
    ∷ []
    ∷ stanza_lines fs

unfoldable pub print_installed : List Fields → Bytes
unfolding unlines stanza_lines
print_installed fs = unlines (stanza_lines fs)

-- The value fits on a line.
abbrev pub is_value : Bytes → Bool
is_value v = lacks 10 v && (lacks 13 v && ltb (length v + 2) max_line)

-- The package has a name and a version.
abbrev pub is_entry : Fields → Bool
is_entry f =
    not (is_empty f.name || is_empty f.version)
    && (is_value f.name && (is_value f.version && (is_value f.arch && is_value f.origin)))

is_line-field_line :
    (key : ℕ) (v : Bytes)
    → lacks 10 (key ∷ []) ≡ true
    → lacks 13 (key ∷ []) ≡ true
    → is_value v ≡ true
    → is_line max_line (field_line key v) ≡ true
is_line-field_line key v h k l = ground (arith, h, k, l)

stanza_lines-are_lines :
    (fs : List Fields)
    → all_of is_entry fs ≡ true
    → all_of (is_line max_line) (stanza_lines fs) ≡ true
unfolding stanza_lines
stanza_lines-are_lines [] h = refl
stanza_lines-are_lines (f ∷ fs) h =
    let (here, rest) = and_split (is_entry f) h in
    let (full, values) = and_split (not (is_empty f.name || is_empty f.version)) here in
    let (n, values_v) = and_split (is_value f.name) values in
    let (v, values_a) = and_split (is_value f.version) values_v in
    let (a, o) = and_split (is_value f.arch) values_a in
    rw
      (
        is_line-field_line b'P' f.name refl refl n,
        is_line-field_line b'V' f.version refl refl v,
        is_line-field_line b'A' f.arch refl refl a,
        is_line-field_line b'o' f.origin refl refl o,
        stanza_lines-are_lines fs rest,
      )
      refl

flush-is_entry : (f : Fields) → is_entry f ≡ true → flush f ≡ package_of f ∷ []
unfolding flush
flush-is_entry f h = ground (arith, h)

parse_lines-stanza_lines :
    (fs : List Fields)
    → all_of is_entry fs ≡ true
    → parse_lines (stanza_lines fs) no_fields ≡ map package_of fs
unfolding parse_lines stanza_lines
parse_lines-stanza_lines [] h = refl
parse_lines-stanza_lines (f ∷ fs) h =
    let (here, rest) = and_split (is_entry f) h in
    ap (λ ps. ps ++ parse_lines (stanza_lines fs) no_fields) (flush-is_entry f here)
    ∙ ap (◌∷◌ (package_of f)) (parse_lines-stanza_lines fs rest)

-- A database written from packages with a name and a version, whose values have no end of line in
-- them and fit into the buffer, is parsed to these packages in their order, without an error.
pub parse_apk_installed-print_installed :
    (fs : List Fields)
    → all_of is_entry fs ≡ true
    → parse_apk_installed (print_installed fs) ≡ (map package_of fs, false)
unfolding parse_apk_installed print_installed
parse_apk_installed-print_installed fs h =
    rw
      (
        scan_lines-unlines max_line (stanza_lines fs) (stanza_lines-are_lines fs h),
        parse_lines-stanza_lines fs h,
      )
      refl
