-- ===== src/Rbac/Tests.antt =====
-- Scopes of concrete policies.
use bongsu.Prelude.{◌≡◌, refl, false, ◌||◌, none, some, List, [], ◌∷◌, any_of}
use bongsu.Text.{Bytes, codes}
use bongsu.Rbac.{AccessScope, can_read_host, parse_access_subject_ref, parse_asset_group_ref}
use bongsu.Rbac.Scope.{Queries, PolicyRow, access_scope_of_rows}
use bongsu.Rbac.Granted.{grants, is_found_for, access_scope_of_rows-grants}

abbrev of_hosts : List Bytes → AccessScope
of_hosts ids = record { all = false; host_ids = ids }

parse_runs :
    (parse_access_subject_ref (codes " User: kim ") ≡ (codes "user", codes "kim"))
    × (parse_access_subject_ref (codes "a:b") ≡ ([], codes "a:b"))
    × (parse_asset_group_ref (codes "tag:os=linux") ≡ some (codes "tag", codes "os=linux"))
unfolding parse_access_subject_ref parse_asset_group_ref
parse_runs = (refl, refl, refl)

-- One container runs on h3, and the team web owns h4.
abbrev queries : Queries
queries = record {
  all_hosts = some (codes "h3" ∷ codes "h4" ∷ []);
  container_hosts = λ refs. some (codes "h3" ∷ []);
  image_hosts = λ refs. some [];
  hosts_where = λ column value. some (codes "h4" ∷ []);
  hosts_tagged = λ key value. none;
}

abbrev policy : Bytes → Bytes → PolicyRow
policy rt rid = record { resource_type = rt; resource_id = rid }

abbrev rows : List PolicyRow
rows =
    policy (codes "host") (codes "h1")
    ∷ policy (codes "host") (codes "*")
    ∷ policy (codes "container") (codes "*")
    ∷ policy (codes "asset_group") (codes "team:web")
    ∷ []

abbrev granted : AccessScope
granted = of_hosts (codes "h1" ∷ codes "h3" ∷ codes "h4" ∷ [])

access_run : access_scope_of_rows queries (some rows) ≡ some granted
unfolding access_scope_of_rows
access_run = refl

access_scope_of_rows-grants_example :
    can_read_host granted (codes "h4")
    ≡ (any_of (grants (codes "h4")) rows || is_found_for queries (codes "h4") rows)
access_scope_of_rows-grants_example =
    access_scope_of_rows-grants queries rows (codes "h4") refl access_run
