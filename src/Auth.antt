-- ===== src/Auth.antt =====
-- internal/server/api/util.go and api.go: the lists of names that the identities are made of.
pub mod Keys
pub mod Oidc
pub mod Credentials
pub mod Identity
pub mod Laws
mod Tests
use bongsu.Prelude.{
  ℕ, Bool, true, false, not, ◌&&◌, ◌||◌, List, [], ◌∷◌, ◌++◌, ◌==◌, if◌then◌else◌, map,
}
use bongsu.Prelude.Sort.{filter}
use bongsu.Text.{Bytes, codes, equal, is_empty, one_of, split_on, trim_space}

-- The loop of `cleanCSV`, with the names `seen` so far.
unfoldable pub clean_from : List Bytes → List Bytes → List Bytes
unfolding one_of trim_space
clean_from seen [] = []
clean_from seen (item ∷ items) =
    let name = trim_space item in
    let rest = clean_from (name ∷ seen) items in
    let skipped = clean_from seen items in
    if is_empty name || one_of name seen then skipped else name ∷ rest

unfoldable pub clean_csv : List Bytes → List Bytes
unfolding clean_from
clean_csv items = clean_from [] items

unfoldable pub split_csv : Bytes → List Bytes
unfolding clean_csv split_on
split_csv v = if is_empty v then [] else clean_csv (split_on b',' v)

-- `strings.ReplaceAll(raw, ";", ",")`
abbrev pub with_commas : Bytes → Bytes
with_commas = map (λ (c : ℕ). if c == b';' then b',' else c)

unfoldable pub split_identity_header_values : Bytes → List Bytes
unfolding clean_csv split_on
split_identity_header_values raw = clean_csv (split_on b',' (with_commas raw))

-- `mapFromList`, a set as the list of its members.
unfoldable pub map_from_list : List Bytes → List Bytes
unfolding filter trim_space
map_from_list items = filter (λ (item : Bytes). not (is_empty item)) (map trim_space items)

unfoldable pub append_unique_string : List Bytes → Bytes → List Bytes
unfolding one_of trim_space
append_unique_string items item =
    let name = trim_space item in
    if is_empty name || one_of name items then items else items ++ name ∷ []

-- The loops that collect subjects.
unfoldable pub append_each : List Bytes → List Bytes → List Bytes
unfolding append_unique_string
append_each items [] = items
append_each items (next ∷ more) = append_each (append_unique_string items next) more

abbrev pub user_subject : Bytes → Bytes
user_subject user = codes "user:" ++ user

abbrev pub group_subject : Bytes → Bytes
group_subject group = codes "group:" ++ group
