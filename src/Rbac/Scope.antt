-- ===== src/Rbac/Scope.antt =====
-- internal/server/db/rbac.go: `getAccessScopeForPermissions`, from the rows of policies on.
use bongsu.Prelude.{
  Bool, true, false, not, ◌&&◌, ◌||◌, Option, none, some, List, [], ◌∷◌, ◌++◌, if◌then◌else◌,
}
use bongsu.Text.{Bytes, codes, equal, is_empty, one_of, trim_space}
use bongsu.Rbac.{AccessScope, append_unique, append_all, has_no_ids, cut, parse_asset_group_ref}

-- The queries for hosts: of all hosts, of containers and images, where `none` stands for the
-- wildcard, of the hosts with a value in a column, and of those with a tag.
pub record Queries : Type 0 where
  pub all_hosts : Option (List Bytes)
  pub container_hosts : Option (List Bytes) → Option (List Bytes)
  pub image_hosts : Option (List Bytes) → Option (List Bytes)
  pub hosts_where : Bytes → Bytes → Option (List Bytes)
  pub hosts_tagged : Bytes → Bytes → Option (List Bytes)

-- A row: `rt` and `rid`.
pub record PolicyRow : Type 0 where
  pub resource_type : Bytes
  pub resource_id : Bytes

-- The variables of the loop over the rows.
pub record Collected : Type 0 where
  pub scope : AccessScope
  pub container_refs : List Bytes
  pub image_refs : List Bytes
  pub asset_group_refs : List Bytes
  pub container_wildcard : Bool
  pub image_wildcard : Bool
  pub asset_group_wildcard : Bool

abbrev pub nothing_collected : Collected
nothing_collected = record {
  scope = record { all = false; host_ids = [] };
  container_refs = [];
  image_refs = [];
  asset_group_refs = [];
  container_wildcard = false;
  image_wildcard = false;
  asset_group_wildcard = false;
}

abbrev pub with_ref : Bytes → List Bytes → List Bytes
with_ref rid refs = if is_empty rid then refs else refs ++ rid ∷ []

unfoldable pub collect_row : PolicyRow → Collected → Collected
unfolding equal append_unique
collect_row row c =
    let rt = row.resource_type in
    let rid = row.resource_id in
    let is_wild = equal rid (codes "*") in
    if equal rt (codes "all")
    then record {
      scope = record { all = true; host_ids = c.scope.host_ids };
      container_refs = c.container_refs;
      image_refs = c.image_refs;
      asset_group_refs = c.asset_group_refs;
      container_wildcard = c.container_wildcard;
      image_wildcard = c.image_wildcard;
      asset_group_wildcard = c.asset_group_wildcard;
    }
    else if equal rt (codes "host")
    then record {
      scope = record {
        all = c.scope.all;
        host_ids =
            if not (is_empty rid) && not is_wild
            then append_unique c.scope.host_ids rid
            else c.scope.host_ids;
      };
      container_refs = c.container_refs;
      image_refs = c.image_refs;
      asset_group_refs = c.asset_group_refs;
      container_wildcard = c.container_wildcard;
      image_wildcard = c.image_wildcard;
      asset_group_wildcard = c.asset_group_wildcard;
    }
    else if equal rt (codes "container")
    then record {
      scope = c.scope;
      container_refs = if is_wild then c.container_refs else with_ref rid c.container_refs;
      image_refs = c.image_refs;
      asset_group_refs = c.asset_group_refs;
      container_wildcard = is_wild || c.container_wildcard;
      image_wildcard = c.image_wildcard;
      asset_group_wildcard = c.asset_group_wildcard;
    }
    else if equal rt (codes "image")
    then record {
      scope = c.scope;
      container_refs = c.container_refs;
      image_refs = if is_wild then c.image_refs else with_ref rid c.image_refs;
      asset_group_refs = c.asset_group_refs;
      container_wildcard = c.container_wildcard;
      image_wildcard = is_wild || c.image_wildcard;
      asset_group_wildcard = c.asset_group_wildcard;
    }
    else if equal rt (codes "asset_group")
    then record {
      scope = c.scope;
      container_refs = c.container_refs;
      image_refs = c.image_refs;
      asset_group_refs = if is_wild then c.asset_group_refs else with_ref rid c.asset_group_refs;
      container_wildcard = c.container_wildcard;
      image_wildcard = c.image_wildcard;
      asset_group_wildcard = is_wild || c.asset_group_wildcard;
    }
    else c

unfoldable pub collect : List PolicyRow → Collected → Collected
unfolding collect_row
collect [] c = c
collect (r ∷ rows) c = collect rows (collect_row r c)

-- `queryStringList`.
abbrev pub query_string_list : Option (List Bytes) → Option (List Bytes)
query_string_list none = none
query_string_list (some rows) = some (append_all [] rows)

-- `hostIDsForContainerPolicies` and `hostIDsForImagePolicies`, for their query.
unfoldable pub host_ids_for_policies :
    (Option (List Bytes) → Option (List Bytes)) → List Bytes → Bool → Option (List Bytes)
unfolding append_all
host_ids_for_policies query refs wildcard =
    if not wildcard && has_no_ids refs
    then some []
    else query_string_list (query (if wildcard then none else some refs))

-- The values of one asset group: `none` is `continue`, `some none` an error.
abbrev pub tagged : Queries → Option (Bytes × Bytes) → Option (Option (List Bytes))
tagged q none = none
tagged q (some (k, v)) =
    if is_empty (trim_space k)
    then none
    else some (query_string_list (q.hosts_tagged (trim_space k) (trim_space v)))

abbrev pub group_hosts : Queries → Option (Bytes × Bytes) → Option (Option (List Bytes))
group_hosts q none = none
group_hosts q (some (key, value)) =
    if one_of key (codes "owner" ∷ codes "team" ∷ codes "environment" ∷ codes "criticality" ∷ [])
    then some (query_string_list (q.hosts_where key value))
    else if equal key (codes "tag")
    then tagged q (cut value b'=')
    else none

-- The loop over the references.
unfoldable pub host_ids_for_refs : Queries → List Bytes → List Bytes → Option (List Bytes)
unfolding append_all one_of equal cut trim_space parse_asset_group_ref
host_ids_for_refs q host_ids [] = some host_ids
host_ids_for_refs q host_ids (ref ∷ refs) = elim (group_hosts q (parse_asset_group_ref ref)) [
  | none ↦ host_ids_for_refs q host_ids refs
  | some found ↦ elim found [
    | none ↦ none
    | some ids ↦ host_ids_for_refs q (append_all host_ids ids) refs
  ]
]

unfoldable pub host_ids_for_asset_group_policies : Queries → List Bytes → Bool → Option (List Bytes)
unfolding host_ids_for_refs
host_ids_for_asset_group_policies q refs wildcard =
    if wildcard then query_string_list q.all_hosts else host_ids_for_refs q [] refs

abbrev pub add_hosts : Option (List Bytes) → Option (List Bytes) → Option (List Bytes)
add_hosts none found = none
add_hosts (some ids) none = none
add_hosts (some ids) (some more) = some (append_all ids more)

abbrev pub scope_of : Option (List Bytes) → Option AccessScope
scope_of none = none
scope_of (some ids) = some (record { all = false; host_ids = ids })

-- The part behind the loop over the rows.
unfoldable pub resolve_scope : Queries → Collected → Option AccessScope
unfolding host_ids_for_policies host_ids_for_asset_group_policies append_all
resolve_scope q c =
    if c.scope.all
    then some c.scope
    else scope_of (
        add_hosts
          (add_hosts
            (add_hosts (some c.scope.host_ids)
              (host_ids_for_policies q.container_hosts c.container_refs c.container_wildcard))
            (host_ids_for_policies q.image_hosts c.image_refs c.image_wildcard))
          (host_ids_for_asset_group_policies q c.asset_group_refs c.asset_group_wildcard))

-- `rows` are the policies that the first query finds for the subject and the permissions.
unfoldable pub access_scope_of_rows : Queries → Option (List PolicyRow) → Option AccessScope
unfolding collect resolve_scope
access_scope_of_rows q none = none
access_scope_of_rows q (some rows) = resolve_scope q (collect rows nothing_collected)
