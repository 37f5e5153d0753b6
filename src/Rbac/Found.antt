-- ===== src/Rbac/Found.antt =====
-- The hosts that the queries of `getAccessScopeForPermissions` find.
use bongsu.Prelude.{
  ◌≡◌, refl, sym, ap, ◌∙◌, Bool, true, false, not, ◌&&◌, ◌||◌, Option, none, some, List, [], ◌∷◌,
  arith, any_of, if◌then◌else◌, Bool-cases, Option-cases, inl, inr,
}
use bongsu.Text.{Bytes, codes, equal, is_empty, one_of, trim_space}
use bongsu.Rbac.{append_all, has_no_ids, cut, parse_asset_group_ref}
use bongsu.Rbac.Laws.{one_of-append_all}
use bongsu.Rbac.Scope.{
  Queries, query_string_list, host_ids_for_policies, tagged, group_hosts, host_ids_for_refs,
  host_ids_for_asset_group_policies,
}
use bongsu.Rbac.Sources.{is_found, has_tag, is_in_group}

module _ (h : Bytes) (named : is_empty h ≡ false) where
  is_found-query_string_list :
      (o : Option (List Bytes)) → is_found h (query_string_list o) ≡ is_found h o
  unfolding one_of
  is_found-query_string_list none = refl
  is_found-query_string_list (some ids) = one_of-append_all h named [] ids

  pub is_found-policies :
      (query : Option (List Bytes) → Option (List Bytes)) (refs : List Bytes) (wildcard : Bool)
      → is_found h (host_ids_for_policies query refs wildcard) ≡ (
          if wildcard
          then is_found h (query none)
          else not (has_no_ids refs) && is_found h (query (some refs)))
  unfolding host_ids_for_policies one_of
  is_found-policies query refs true = is_found-query_string_list (query none)
  is_found-policies query [] false = refl
  is_found-policies query (r ∷ refs) false = is_found-query_string_list (query (some (r ∷ refs)))

  -- What the query of a group found: nothing when the reference is skipped, else its hosts.
  abbrev HoldsAs : Bool → Option (Option (List Bytes)) → Type 0
  HoldsAs b none = b ≡ false
  HoldsAs b (some found) = is_found h found ≡ b

  tagged-holds : (q : Queries) (o : Option (Bytes × Bytes)) → HoldsAs (has_tag q h o) (tagged q o)
  tagged-holds q none = refl
  tagged-holds q (some (k, v)) = elim (Bool-cases (is_empty (trim_space k))) [
    | inl blank ↦ rw blank refl
    | inr given ↦
        rw given (is_found-query_string_list (q.hosts_tagged (trim_space k) (trim_space v)))
  ]

  group_hosts-holds :
      (q : Queries) (o : Option (Bytes × Bytes)) → HoldsAs (is_in_group q h o) (group_hosts q o)
  group_hosts-holds q none = refl
  group_hosts-holds q (some (key, value)) =
      let columns = codes "owner" ∷ codes "team" ∷ codes "environment" ∷ codes "criticality" ∷ [] in
      elim (Bool-cases (one_of key columns)) [
        | inl column ↦ rw column (is_found-query_string_list (q.hosts_where key value))
        | inr other ↦ elim (Bool-cases (equal key (codes "tag"))) [
          | inl tag ↦ rw (other, tag) (tagged-holds q (cut value b'='))
          | inr unknown ↦ rw (other, unknown) refl
        ]
      ]

  pub is_found-refs :
      (q : Queries) (ids refs : List Bytes) {found : List Bytes}
      → host_ids_for_refs q ids refs ≡ some found
      → one_of h found ≡ (
          one_of h ids
          || any_of (λ (ref : Bytes). is_in_group q h (parse_asset_group_ref ref)) refs)
  unfolding host_ids_for_refs
  is_found-refs q ids [] e = ap (is_found h) (sym e) ∙ ground arith
  is_found-refs q ids (ref ∷ refs) e =
      let holds = group_hosts-holds q (parse_asset_group_ref ref) in
      elim (Option-cases (group_hosts q (parse_asset_group_ref ref))) [
        | inl skipped ↦
            is_found-refs q ids refs (rw (host_ids_for_refs, skipped) at e)
            ∙ rw (rw skipped at holds) refl
        | inr (none, failed) ↦ let stopped = rw (host_ids_for_refs, failed) at e in absurd (cc)
        | inr (some more, queried) ↦
            is_found-refs q (append_all ids more) refs (rw (host_ids_for_refs, queried) at e)
            ∙ rw (one_of-append_all h named ids more, rw queried at holds) (ground arith)
      ]

  pub is_found-asset_groups :
      (q : Queries) (refs : List Bytes) (wildcard : Bool) {found : List Bytes}
      → host_ids_for_asset_group_policies q refs wildcard ≡ some found
      → one_of h found ≡ (
          if wildcard
          then is_found h q.all_hosts
          else any_of (λ (ref : Bytes). is_in_group q h (parse_asset_group_ref ref)) refs)
  unfolding host_ids_for_asset_group_policies one_of
  is_found-asset_groups q refs true e =
      ap (is_found h) (sym e) ∙ is_found-query_string_list q.all_hosts
  is_found-asset_groups q refs false e = is_found-refs q [] refs e
