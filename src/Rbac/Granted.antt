-- ===== src/Rbac/Granted.antt =====
-- What the policies of a subject let it see.
use bongsu.Prelude.{
  ◌≡◌, refl, sym, ap, ◌∙◌, Bool, false, not, ◌&&◌, ◌||◌, Option, none, some, List, [], ◌∷◌, arith,
  any_of, Bool-cases, inl, inr,
}
use bongsu.Text.{Bytes, codes, equal, is_empty, one_of}
use bongsu.Rbac.{AccessScope, append_all, can_read_host}
use bongsu.Rbac.Laws.{one_of-append_unique, one_of-append_all, equal-is_empty}
use bongsu.Rbac.Sources.{
  is_found, is_found_by, is_in_groups, collect-container, collect-image, collect-asset_group,
}
use bongsu.Rbac.Found.{is_found-policies, is_found-asset_groups}
use bongsu.Rbac.Scope.{
  Queries, PolicyRow, Collected, nothing_collected, collect_row, collect, host_ids_for_policies,
  host_ids_for_asset_group_policies, add_hosts, scope_of, resolve_scope, access_scope_of_rows,
}

-- The policy is for all assets, or names the host.
abbrev pub grants : Bytes → PolicyRow → Bool
grants h row =
    equal row.resource_type (codes "all")
    || (equal row.resource_type (codes "host")
        && (not (equal row.resource_id (codes "*")) && equal h row.resource_id))

-- The host is one of those of the containers, the images or the asset groups of the policies.
abbrev pub is_found_for : Queries → Bytes → List PolicyRow → Bool
is_found_for q h rows =
    is_found_by q.container_hosts h (codes "container") rows
    || (is_found_by q.image_hosts h (codes "image") rows || is_in_groups q h rows)

module _ (h : Bytes) (named : is_empty h ≡ false) where
  abbrev is_direct : Collected → Bool
  is_direct c = c.scope.all || one_of h c.scope.host_ids

  is_direct-collect_row :
      (row : PolicyRow) (c : Collected)
      → is_direct (collect_row row c) ≡ (is_direct c || grants h row)
  unfolding collect_row
  is_direct-collect_row row c = ground (
    arith,
    one_of-append_unique h named c.scope.host_ids row.resource_id,
    equal-is_empty h row.resource_id named,
  )

  is_direct-collect :
      (rows : List PolicyRow) (c : Collected)
      → is_direct (collect rows c) ≡ (is_direct c || any_of (grants h) rows)
  unfolding collect
  is_direct-collect [] c = ground arith
  is_direct-collect (row ∷ rows) c =
      is_direct-collect rows (collect_row row c) ∙ rw (is_direct-collect_row row c) (ground arith)

  abbrev sees : Option AccessScope → Bool
  sees none = false
  sees (some s) = can_read_host s h

  sees-scope_of :
      (ids : List Bytes) (a b d : Option (List Bytes)) {s : AccessScope}
      → scope_of (add_hosts (add_hosts (add_hosts (some ids) a) b) d) ≡ some s
      → can_read_host s h ≡ (one_of h ids || (is_found h a || (is_found h b || is_found h d)))
  unfolding can_read_host
  sees-scope_of ids none b d e = absurd (cc)
  sees-scope_of ids (some xs) none d e = absurd (cc)
  sees-scope_of ids (some xs) (some ys) none e = absurd (cc)
  sees-scope_of ids (some xs) (some ys) (some zs) e =
      sym (ap sees e)
      ∙ one_of-append_all h named (append_all (append_all ids xs) ys) zs
      ∙ rw (one_of-append_all h named (append_all ids xs) ys, one_of-append_all h named ids xs)
          (ground arith)

  -- No query has failed when there is a scope.
  last-found :
      (ids : List Bytes) (a b d : Option (List Bytes)) {s : AccessScope}
      → scope_of (add_hosts (add_hosts (add_hosts (some ids) a) b) d) ≡ some s
      → (found : List Bytes) × (d ≡ some found)
  last-found ids none b d e = absurd (cc)
  last-found ids (some xs) none d e = absurd (cc)
  last-found ids (some xs) (some ys) none e = absurd (cc)
  last-found ids (some xs) (some ys) (some zs) e = (zs, refl)

  -- The hosts that the queries find for what the loop has collected.
  abbrev hosts_of_containers : Queries → Collected → Option (List Bytes)
  hosts_of_containers q c =
      host_ids_for_policies q.container_hosts c.container_refs c.container_wildcard

  abbrev hosts_of_images : Queries → Collected → Option (List Bytes)
  hosts_of_images q c = host_ids_for_policies q.image_hosts c.image_refs c.image_wildcard

  abbrev hosts_of_groups : Queries → Collected → Option (List Bytes)
  hosts_of_groups q c =
      host_ids_for_asset_group_policies q c.asset_group_refs c.asset_group_wildcard

  is_found-containers :
      (q : Queries) (rows : List PolicyRow)
      → is_found h (hosts_of_containers q (collect rows nothing_collected))
        ≡ is_found_by q.container_hosts h (codes "container") rows
  is_found-containers q rows =
      let (refs, flag) = collect-container rows nothing_collected in
      is_found-policies h named q.container_hosts _ _ ∙ rw (refs, flag) refl

  is_found-images :
      (q : Queries) (rows : List PolicyRow)
      → is_found h (hosts_of_images q (collect rows nothing_collected))
        ≡ is_found_by q.image_hosts h (codes "image") rows
  is_found-images q rows =
      let (refs, flag) = collect-image rows nothing_collected in
      is_found-policies h named q.image_hosts _ _ ∙ rw (refs, flag) refl

  is_found-groups :
      (q : Queries) (rows : List PolicyRow) {found : List Bytes}
      → hosts_of_groups q (collect rows nothing_collected) ≡ some found
      → is_found h (hosts_of_groups q (collect rows nothing_collected)) ≡ is_in_groups q h rows
  is_found-groups q rows e =
      let (refs, flag) = collect-asset_group rows nothing_collected in
      ap (is_found h) e ∙ is_found-asset_groups h named q _ _ e ∙ rw (refs, flag) refl

  resolve_scope-grants :
      (q : Queries) (rows : List PolicyRow) {s : AccessScope}
      → resolve_scope q (collect rows nothing_collected) ≡ some s
      → can_read_host s h ≡ (is_direct (collect rows nothing_collected) || is_found_for q h rows)
  unfolding resolve_scope can_read_host
  resolve_scope-grants q rows {s} e =
      let c = collect rows nothing_collected in
      elim (Bool-cases c.scope.all) [
        | inl all ↦
            let same : some c.scope ≡ some s = sym (rw (resolve_scope, all) refl) ∙ e in
            sym (ap sees same) ∙ rw all refl
        | inr some_hosts ↦
            let found = sym (rw (resolve_scope, some_hosts) refl) ∙ e in
            let (ids, groups) =
              last-found c.scope.host_ids (hosts_of_containers q c) (hosts_of_images q c)
                (hosts_of_groups q c) found in
            rw some_hosts (
              sees-scope_of c.scope.host_ids (hosts_of_containers q c) (hosts_of_images q c)
                (hosts_of_groups q c) found
              ∙ rw
                  (
                    is_found-containers q rows,
                    is_found-images q rows,
                    is_found-groups q rows groups,
                  )
                  (ground arith))
      ]

-- With the scope that `getAccessScopeForPermissions` makes of the rows of policies, when no query
-- fails, `CanReadHost` allows a host, whose id is not empty, exactly when some policy is for all
-- assets, some policy of the type host names it and is not the wildcard, or the host is found for
-- the containers, the images or the asset groups. For containers and for images: by the query of
-- all, when a policy of the type has the wildcard, else by the query for what the policies of the
-- type name, if they name anything. For asset groups: among all hosts, when a policy has the
-- wildcard, else by one of the named groups, with the column or the tag that the group says.
pub access_scope_of_rows-grants :
    (q : Queries) (rows : List PolicyRow) (host_id : Bytes) {s : AccessScope}
    → is_empty host_id ≡ false
    → access_scope_of_rows q (some rows) ≡ some s
    → can_read_host s host_id ≡ (any_of (grants host_id) rows || is_found_for q host_id rows)
unfolding access_scope_of_rows one_of
access_scope_of_rows-grants q rows host_id named e =
    resolve_scope-grants host_id named q rows e
    ∙ rw (is_direct-collect host_id named rows nothing_collected) refl
