-- ===== src/Scanner/Dpkg/RoundTrip.antt =====
-- A status database that is written field by field is read back.
use bongsu.Prelude.{
  suc, ◌≡◌, refl, ap, ap₂, ◌∙◌, Bool, true, false, not, ◌&&◌, ◌||◌, some, List, [], ◌∷◌, ◌++◌, map,
  arith, ◌==◌, if◌then◌else◌, length, take, drop, all_of, and_split, drop_while,
}
use bongsu.Prelude.Sort.{filter}
use bongsu.Text.{Bytes, codes, equal, equal_iff, is_empty, trim_space}
use bongsu.Text.Pieces.{lacks, index_byte-append, take-length, drop-length}
use bongsu.Scanner.Lines.Laws.{unlines, is_line, scan_lines-unlines}
use bongsu.Scanner.Dpkg.{
  Fields, lookup, package_of, is_not_installed, flush, set_field, read_line, parse_lines, max_line,
  parse_dpkg_status,
}

-- A name and a value.
abbrev pub Field : Type 0
Field = Bytes × Bytes

abbrev pub field_line : Field → Bytes
field_line (k, v) = k ++ b':' ∷ b' ' ∷ v

-- The lines of a stanza, and of a list of stanzas.
unfoldable pub status_lines : List (List Field) → List Bytes
status_lines [] = []
status_lines (s ∷ ss) = map field_line s ++ [] ∷ status_lines ss

unfoldable pub print_status : List (List Field) → Bytes
unfolding unlines status_lines
print_status ss = unlines (status_lines ss)

-- The name of a field has no blank before it and no colon in it.
abbrev pub is_name : Bytes → Bool
is_name [] = false
is_name (c ∷ k) =
    not (c == b' ' || c == 9) && (lacks b':' (c ∷ k) && equal (trim_space (c ∷ k)) (c ∷ k))

abbrev pub is_value : Bytes → Bool
is_value v = equal (trim_space v) v

abbrev pub is_field : Field → Bool
is_field (k, v) = is_line max_line (field_line (k, v)) && (is_name k && is_value v)

-- The package has a name and a version, and its status is missing or contains "installed".
abbrev pub is_reported : List Field → Bool
is_reported cur =
    not (is_empty (lookup (codes "Package") cur) || is_empty (lookup (codes "Version") cur))
    && not (is_not_installed (lookup (codes "Status") cur))

-- The fields as assignments, the last one first.
abbrev pub assigned : List Field → Fields → Fields
assigned [] cur = cur
assigned (f ∷ fs) cur = assigned fs (f ∷ cur)

trim_space-space : (v : Bytes) → trim_space (b' ' ∷ v) ≡ trim_space v
unfolding trim_space drop_while
trim_space-space v = refl

set_field-length :
    (k v : Bytes) (cur : Fields)
    → is_name k ≡ true
    → is_value v ≡ true
    → set_field (field_line (k, v)) (some (length k)) cur ≡ (k, v) ∷ cur
set_field-length [] v cur h l = absurd (cc)
set_field-length (c ∷ k) v cur h l =
    let (start, rest) = and_split (not (c == b' ' || c == 9)) h in
    let (no_colon, trimmed) = and_split (lacks b':' (c ∷ k)) rest in
    let name : trim_space (c ∷ take (length k) (k ++ b':' ∷ b' ' ∷ v)) ≡ c ∷ k =
      ap (λ s. trim_space (c ∷ s)) (take-length k (b':' ∷ b' ' ∷ v))
      ∙ (equal_iff (trim_space (c ∷ k)) (c ∷ k)).0 trimmed in
    let value : trim_space (drop (suc (length k)) (k ++ b':' ∷ b' ' ∷ v)) ≡ v =
      ap trim_space (drop-length k (b' ' ∷ v) b':')
      ∙ trim_space-space v
      ∙ (equal_iff (trim_space v) v).0 l in
    ap₂ (λ n w. (n, w) ∷ cur) name value

read_line-field_line :
    (k v : Bytes) (cur : Fields)
    → is_name k ≡ true
    → is_value v ≡ true
    → read_line (field_line (k, v)) cur ≡ (k, v) ∷ cur
unfolding read_line
read_line-field_line [] v cur h l = absurd (cc)
read_line-field_line (c ∷ k) v cur h l =
    let (start, rest) = and_split (not (c == b' ' || c == 9)) h in
    let (no_colon, trimmed) = and_split (lacks b':' (c ∷ k)) rest in
    let not_blank : (c == b' ' || c == 9) ≡ false = ground (arith, start) in
    rw (not_blank, read_line, index_byte-append b':' (c ∷ k) (b' ' ∷ v) no_colon)
      (set_field-length (c ∷ k) v cur h l)

parse_lines-field_line :
    (t k v : Bytes) (ls : List Bytes) (cur : Fields)
    → is_name k ≡ true
    → is_value v ≡ true
    → parse_lines t (field_line (k, v) ∷ ls) cur ≡ parse_lines t ls ((k, v) ∷ cur)
unfolding parse_lines
parse_lines-field_line t [] v ls cur h l = absurd (cc)
parse_lines-field_line t (c ∷ k) v ls cur h l =
    ap (parse_lines t ls) (read_line-field_line (c ∷ k) v cur h l)

parse_lines-stanza :
    (t : Bytes) (fs : List Field) (ls : List Bytes) (cur : Fields)
    → all_of is_field fs ≡ true
    → parse_lines t (map field_line fs ++ [] ∷ ls) cur
      ≡ flush t (assigned fs cur) ++ parse_lines t ls []
unfolding parse_lines
parse_lines-stanza t [] ls cur h = refl
parse_lines-stanza t ((k, v) ∷ fs) ls cur h =
    let (here, rest) = and_split (is_field (k, v)) h in
    let (name, value) =
      and_split (is_name k) ((and_split (is_line max_line (field_line (k, v))) here).1) in
    parse_lines-field_line t k v (map field_line fs ++ [] ∷ ls) cur name value
    ∙ parse_lines-stanza t fs ls ((k, v) ∷ cur) rest

flush-is_reported :
    (t : Bytes) (cur : Fields)
    → flush t cur ≡ (if is_reported cur then package_of t cur ∷ [] else [])
unfolding flush
flush-is_reported t cur = ground arith

-- The assignments of a stanza.
abbrev pub fields_of : List Field → Fields
fields_of s = assigned s []

parse_lines-nothing : (t : Bytes) → parse_lines t [] [] ≡ []
unfolding parse_lines flush lookup
parse_lines-nothing t = refl

parse_lines-status_lines :
    (t : Bytes) (ss : List (List Field))
    → all_of (all_of is_field) ss ≡ true
    → parse_lines t (status_lines ss) []
      ≡ map (package_of t) (filter is_reported (map fields_of ss))
unfolding status_lines filter
parse_lines-status_lines t [] h = parse_lines-nothing t
parse_lines-status_lines t (s ∷ ss) h =
    let (here, rest) = and_split (all_of is_field s) h in
    let later = parse_lines-status_lines t ss rest in
    parse_lines-stanza t s (status_lines ss) [] here
    ∙ ap₂ (◌++◌) (flush-is_reported t (fields_of s)) later
    ∙ ground arith

field_lines-are_lines :
    (fs : List Field) (ls : List Bytes)
    → all_of is_field fs ≡ true
    → all_of (is_line max_line) ls ≡ true
    → all_of (is_line max_line) (map field_line fs ++ [] ∷ ls) ≡ true
field_lines-are_lines [] ls h k = k
field_lines-are_lines (f ∷ fs) ls h k =
    let (here, rest) = and_split (is_field f) h in
    rw ((and_split (is_line max_line (field_line f)) here).0, field_lines-are_lines fs ls rest k)
      refl

status_lines-are_lines :
    (ss : List (List Field))
    → all_of (all_of is_field) ss ≡ true
    → all_of (is_line max_line) (status_lines ss) ≡ true
unfolding status_lines
status_lines-are_lines [] h = refl
status_lines-are_lines (s ∷ ss) h =
    let (here, rest) = and_split (all_of is_field s) h in
    field_lines-are_lines s (status_lines ss) here (status_lines-are_lines ss rest)

-- A status file written from stanzas, one line for each field and an empty line behind each
-- stanza, where the lines fit into the buffer, the names of fields have no colon in them and no
-- blank around them, and the values no blank around them, is parsed to the packages of those
-- stanzas, in order, that have a name and a version and whose status is missing or contains
-- "installed".
pub parse_dpkg_status-print_status :
    (pkg_type : Bytes) (ss : List (List Field))
    → all_of (all_of is_field) ss ≡ true
    → parse_dpkg_status pkg_type (print_status ss)
      ≡ map (package_of pkg_type) (filter is_reported (map fields_of ss))
unfolding parse_dpkg_status print_status
parse_dpkg_status-print_status pkg_type ss h =
    rw (scan_lines-unlines max_line (status_lines ss) (status_lines-are_lines ss h))
      (parse_lines-status_lines pkg_type ss h)
