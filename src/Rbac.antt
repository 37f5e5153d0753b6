-- ===== src/Rbac.antt =====
-- internal/server/db/rbac.go: which hosts a subject may see. The queries of the database are a
-- parameter; `none` is an error of theirs.
pub mod Scope
pub mod Laws
pub mod Sources
pub mod Found
pub mod Granted
mod Tests
use bongsu.Prelude.{
  ℕ, suc, Bool, true, false, not, ◌&&◌, ◌||◌, Option, none, some, List, [], ◌∷◌, ◌++◌,
  if◌then◌else◌, take, drop, any_of,
}
use bongsu.Text.{Bytes, codes, equal, is_empty, one_of, trim_space, to_lower}
use bongsu.Vercmp.Chars.{index_byte}

pub record AccessScope : Type 0 where
  pub all : Bool
  pub host_ids : List Bytes

abbrev pub no_scope : AccessScope
no_scope = record { all = false; host_ids = [] }

unfoldable pub append_unique : List Bytes → Bytes → List Bytes
unfolding one_of
append_unique items item =
    if is_empty item then items else if one_of item items then items else items ++ item ∷ []

-- The loops that call `appendUnique` for each of the items.
unfoldable pub append_all : List Bytes → List Bytes → List Bytes
unfolding append_unique
append_all items [] = items
append_all items (i ∷ is) = append_all (append_unique items i) is

unfoldable pub merge_from : AccessScope → List AccessScope → AccessScope
unfolding append_all
merge_from out [] = out
merge_from out (s ∷ scopes) =
    let rest =
      merge_from (record { all = out.all; host_ids = append_all out.host_ids s.host_ids }) scopes in
    if s.all then record { all = true; host_ids = [] } else rest

unfoldable pub merge_access_scopes : List AccessScope → AccessScope
unfolding merge_from
merge_access_scopes scopes = merge_from no_scope scopes

unfoldable pub can_read_host : AccessScope → Bytes → Bool
unfolding one_of
can_read_host s host_id = if s.all then true else one_of host_id s.host_ids

abbrev pub has_no_ids : List Bytes → Bool
has_no_ids [] = true
has_no_ids (i ∷ is) = false

-- `Empty`.
abbrev pub is_empty_scope : AccessScope → Bool
is_empty_scope s = not s.all && has_no_ids s.host_ids

-- `strings.Cut(s, sep)` at a separator of one byte.
unfoldable pub cut : Bytes → ℕ → Option (Bytes × Bytes)
unfolding index_byte
cut s sep = elim (index_byte s sep) [ none ↦ none | some i ↦ some (take i s, drop (suc i) s) ]

-- One round of the loop over the separators.
abbrev pub subject_at : Option (Bytes × Bytes) → Option (Bytes × Bytes)
subject_at none = none
subject_at (some (l, r)) =
    let left = to_lower (trim_space l) in
    let right = trim_space r in
    if one_of left (codes "user" ∷ codes "group" ∷ []) && not (is_empty right)
    then some (left, right)
    else none

abbrev pub or_subject : Option (Bytes × Bytes) → Bytes × Bytes → Bytes × Bytes
or_subject none other = other
or_subject (some subject) other = subject

unfoldable pub parse_access_subject_ref : Bytes → Bytes × Bytes
unfolding trim_space to_lower one_of cut
parse_access_subject_ref text =
    let ref = trim_space text in
    or_subject (subject_at (cut ref b':')) (or_subject (subject_at (cut ref b'/')) ([], ref))

abbrev pub or_cut : Option (Bytes × Bytes) → Option (Bytes × Bytes) → Option (Bytes × Bytes)
or_cut none other = other
or_cut (some c) other = some c

abbrev pub group_of : Option (Bytes × Bytes) → Option (Bytes × Bytes)
group_of none = none
group_of (some (k, v)) =
    let key = to_lower (trim_space k) in
    let value = trim_space v in if is_empty key || is_empty value then none else some (key, value)

unfoldable pub parse_asset_group_ref : Bytes → Option (Bytes × Bytes)
unfolding trim_space to_lower cut
parse_asset_group_ref ref = group_of (or_cut (cut ref b':') (cut ref b'='))
