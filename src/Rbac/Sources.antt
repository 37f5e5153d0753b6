-- ===== src/Rbac/Sources.antt =====
-- What policies for containers, images and asset groups stand for, and what the loop over the rows
-- of policies collects of them.
use bongsu.Prelude.{
  ◌≡◌, refl, sym, ap, ◌∙◌, Bool, true, false, not, ◌&&◌, ◌||◌, Option, none, some, List, [], ◌∷◌,
  ◌++◌, arith, any_of, if◌then◌else◌,
}
use bongsu.Text.{Bytes, codes, equal, equal_iff, is_empty, one_of, trim_space}
use bongsu.Rbac.{has_no_ids, cut, parse_asset_group_ref}
use bongsu.Rbac.Scope.{Queries, PolicyRow, Collected, collect_row, collect}

-- Some policy of the type is for everything of the type.
abbrev pub is_for_all : Bytes → List PolicyRow → Bool
is_for_all typ rows =
    any_of (λ (r : PolicyRow). equal r.resource_type typ && equal r.resource_id (codes "*")) rows

-- The things of the type that the policies name.
abbrev named_by : Bytes → PolicyRow → List Bytes
named_by typ r =
    if equal r.resource_type typ
      && not (is_empty r.resource_id)
      && not (equal r.resource_id (codes "*"))
    then r.resource_id ∷ []
    else []

abbrev pub named_in : Bytes → List PolicyRow → List Bytes
named_in typ [] = []
named_in typ (r ∷ rows) = named_by typ r ++ named_in typ rows

abbrev pub is_found : Bytes → Option (List Bytes) → Bool
is_found h none = false
is_found h (some ids) = one_of h ids

-- The query finds the host: for everything of the type, or for what the policies name, if anything.
abbrev pub is_found_by :
    (Option (List Bytes) → Option (List Bytes)) → Bytes → Bytes → List PolicyRow → Bool
is_found_by query h typ rows =
    if is_for_all typ rows
    then is_found h (query none)
    else not (has_no_ids (named_in typ rows)) && is_found h (query (some (named_in typ rows)))

-- The host is in an asset group: by one of four columns, or by a tag that has a key.
abbrev pub has_tag : Queries → Bytes → Option (Bytes × Bytes) → Bool
has_tag q h none = false
has_tag q h (some (k, v)) =
    not (is_empty (trim_space k)) && is_found h (q.hosts_tagged (trim_space k) (trim_space v))

abbrev pub is_in_group : Queries → Bytes → Option (Bytes × Bytes) → Bool
is_in_group q h none = false
is_in_group q h (some (key, value)) =
    if one_of key (codes "owner" ∷ codes "team" ∷ codes "environment" ∷ codes "criticality" ∷ [])
    then is_found h (q.hosts_where key value)
    else equal key (codes "tag") && has_tag q h (cut value b'=')

abbrev pub is_in_groups : Queries → Bytes → List PolicyRow → Bool
is_in_groups q h rows =
    if is_for_all (codes "asset_group") rows
    then is_found h q.all_hosts
    else any_of (λ (ref : Bytes). is_in_group q h (parse_asset_group_ref ref))
        (named_in (codes "asset_group") rows)

-- A type that is one word is no other.
differ : (typ a b : Bytes) → equal a b ≡ false → equal typ a ≡ true → equal typ b ≡ false
differ typ a b d e = ap (λ z. equal z b) ((equal_iff typ a).0 e) ∙ d

append_none : (xs : List Bytes) → xs ++ [] ≡ xs
append_none [] = refl
append_none (x ∷ xs) = ap (λ ys. x ∷ ys) (append_none xs)

append_assoc : (xs ys zs : List Bytes) → (xs ++ ys) ++ zs ≡ xs ++ (ys ++ zs)
append_assoc [] ys zs = refl
append_assoc (x ∷ xs) ys zs = ap (λ us. x ∷ us) (append_assoc xs ys zs)

collect_row-container :
    (r : PolicyRow) (c : Collected)
    → ((collect_row r c).container_refs ≡ c.container_refs ++ named_by (codes "container") r)
      × ((collect_row r c).container_wildcard
          ≡ (c.container_wildcard || is_for_all (codes "container") (r ∷ [])))
unfolding collect_row equal
collect_row-container r c =
    let t = r.resource_type in
    let a = differ t (codes "all") (codes "container") refl in
    let b = differ t (codes "host") (codes "container") refl in
    (ground (arith, a, b, append_none c.container_refs), ground (arith, a, b))

collect_row-image :
    (r : PolicyRow) (c : Collected)
    → ((collect_row r c).image_refs ≡ c.image_refs ++ named_by (codes "image") r)
      × ((collect_row r c).image_wildcard
          ≡ (c.image_wildcard || is_for_all (codes "image") (r ∷ [])))
unfolding collect_row equal
collect_row-image r c =
    let t = r.resource_type in
    let a = differ t (codes "all") (codes "image") refl in
    let b = differ t (codes "host") (codes "image") refl in
    let d = differ t (codes "container") (codes "image") refl in
    (ground (arith, a, b, d, append_none c.image_refs), ground (arith, a, b, d))

collect_row-asset_group :
    (r : PolicyRow) (c : Collected)
    → ((collect_row r c).asset_group_refs ≡ c.asset_group_refs ++ named_by (codes "asset_group") r)
      × ((collect_row r c).asset_group_wildcard
          ≡ (c.asset_group_wildcard || is_for_all (codes "asset_group") (r ∷ [])))
unfolding collect_row equal
collect_row-asset_group r c =
    let t = r.resource_type in
    let a = differ t (codes "all") (codes "asset_group") refl in
    let b = differ t (codes "host") (codes "asset_group") refl in
    let d = differ t (codes "container") (codes "asset_group") refl in
    let e = differ t (codes "image") (codes "asset_group") refl in
    (ground (arith, a, b, d, e, append_none c.asset_group_refs), ground (arith, a, b, d, e))

-- What the loop over the rows adds to a list and to a flag that one row adds to.
module _ (typ : Bytes) (refs : Collected → List Bytes) (flag : Collected → Bool)
    (row_lem : (r : PolicyRow) (c : Collected)
      → (refs (collect_row r c) ≡ refs c ++ named_by typ r)
        × (flag (collect_row r c) ≡ (flag c || is_for_all typ (r ∷ [])))) where
  collect-adds :
      (rows : List PolicyRow) (c : Collected)
      → (refs (collect rows c) ≡ refs c ++ named_in typ rows)
        × (flag (collect rows c) ≡ (flag c || is_for_all typ rows))
  unfolding collect
  collect-adds [] c = (sym (append_none (refs c)), ground arith)
  collect-adds (r ∷ rows) c =
      let (refs_here, flag_here) = row_lem r c in
      let (refs_after, flag_after) = collect-adds rows (collect_row r c) in
      (
        refs_after ∙ rw refs_here (append_assoc (refs c) (named_by typ r) (named_in typ rows)),
        flag_after ∙ rw flag_here (ground arith),
      )

pub collect-container :
    (rows : List PolicyRow) (c : Collected)
    → ((collect rows c).container_refs ≡ c.container_refs ++ named_in (codes "container") rows)
      × ((collect rows c).container_wildcard
          ≡ (c.container_wildcard || is_for_all (codes "container") rows))
collect-container =
    collect-adds (codes "container") (λ c. c.container_refs) (λ c. c.container_wildcard)
      collect_row-container

pub collect-image :
    (rows : List PolicyRow) (c : Collected)
    → ((collect rows c).image_refs ≡ c.image_refs ++ named_in (codes "image") rows)
      × ((collect rows c).image_wildcard ≡ (c.image_wildcard || is_for_all (codes "image") rows))
collect-image =
    collect-adds (codes "image") (λ c. c.image_refs) (λ c. c.image_wildcard) collect_row-image

pub collect-asset_group :
    (rows : List PolicyRow) (c : Collected)
    → ((collect rows c).asset_group_refs
        ≡ c.asset_group_refs ++ named_in (codes "asset_group") rows)
      × ((collect rows c).asset_group_wildcard
          ≡ (c.asset_group_wildcard || is_for_all (codes "asset_group") rows))
collect-asset_group =
    collect-adds (codes "asset_group") (λ c. c.asset_group_refs) (λ c. c.asset_group_wildcard)
      collect_row-asset_group
