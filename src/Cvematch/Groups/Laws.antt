-- ===== src/Cvematch/Groups/Laws.antt =====
-- The groups are the packages, parted by their keys.
use mathlib.Core.List.{append_assoc, append-nil}
use bongsu.Prelude.{
  ◌≡◌, refl, sym, ap, ap₂, ◌∙◌, Bool, true, not, ◌&&◌, List, [], ◌∷◌, ◌++◌, map, arith,
  if◌then◌else◌, all_of, Bool-cases, inl, inr,
}
use bongsu.Prelude.Sort.{filter, sort, ascending, sort-ascending, all_of-sort}
use bongsu.Text.{Bytes, equal, equal_iff, equal_sym}
use bongsu.Text.Order.{string_le, string_le_total, string_le_trans}
use bongsu.Text.Distinct.{other_than, lacks_name, all_distinct, all_distinct-sort}
use bongsu.Cvematch.{Package, Host, is_nameless}
use bongsu.Cvematch.Groups.{
  package_match_group_key, PackageMatchGroup, append_to, group_packages, packages_at, keys_of,
  group_at, package_match_groups,
}

packages_at-append_to :
    (k c : Bytes) (p : Package) (gs : List PackageMatchGroup)
    → packages_at k (append_to c p gs)
      ≡ (if equal c k then packages_at k gs ++ p ∷ [] else packages_at k gs)
unfolding packages_at append_to
packages_at-append_to k c p [] = ground arith
packages_at-append_to k c p (g ∷ gs) = elim (Bool-cases (equal g.key c)) [
  | inl same ↦ rw (same, (equal_iff g.key c).0 same) (ground arith)
  | inr other ↦ rw other (
      ground (
        arith,
        packages_at-append_to k c p gs,
        λ (h : equal g.key k ≡ true).
            ap (equal c) (sym ((equal_iff g.key k).0 h)) ∙ equal_sym c g.key ∙ other,
      ))
]

lacks_name-append_to :
    (n c : Bytes) (p : Package) (gs : List PackageMatchGroup)
    → lacks_name n (keys_of (append_to c p gs)) ≡ (not (equal c n) && lacks_name n (keys_of gs))
unfolding append_to
lacks_name-append_to n c p [] = refl
lacks_name-append_to n c p (g ∷ gs) = elim (Bool-cases (equal g.key c)) [
  | inl same ↦ rw (same, (equal_iff g.key c).0 same) (ground arith)
  | inr other ↦ rw other (ground (arith, lacks_name-append_to n c p gs))
]

all_distinct-append_to :
    (c : Bytes) (p : Package) (gs : List PackageMatchGroup)
    → all_distinct (keys_of gs) ≡ true
    → all_distinct (keys_of (append_to c p gs)) ≡ true
unfolding append_to
all_distinct-append_to c p [] h = refl
all_distinct-append_to c p (g ∷ gs) h =
    ground
      (arith, all_distinct-append_to c p gs, lacks_name-append_to g.key c p gs, equal_sym c g.key)

module _ (key_of : Package → Bytes) where
  -- The package is matched, in the group of the key.
  abbrev pub is_in_group : Bytes → Package → Bool
  is_in_group k p = not (is_nameless p) && equal (key_of p) k

  packages_at-group_packages :
      (k : Bytes) (ps : List Package) (gs : List PackageMatchGroup)
      → packages_at k (group_packages key_of ps gs) ≡ packages_at k gs ++ filter (is_in_group k) ps
  unfolding group_packages filter
  packages_at-group_packages k [] gs = sym (append-nil (packages_at k gs))
  packages_at-group_packages k (p ∷ ps) gs = elim (Bool-cases (is_nameless p)) [
    | inl skipped ↦ rw skipped (packages_at-group_packages k ps gs)
    | inr listed ↦ rw listed (
        packages_at-group_packages k ps (append_to (key_of p) p gs)
        ∙ rw (packages_at-append_to k (key_of p) p gs)
            (ground (arith, append_assoc (packages_at k gs) (p ∷ []) (filter (is_in_group k) ps))))
  ]

  all_distinct-group_packages :
      (ps : List Package) (gs : List PackageMatchGroup)
      → all_distinct (keys_of gs) ≡ true
      → all_distinct (keys_of (group_packages key_of ps gs)) ≡ true
  unfolding group_packages
  all_distinct-group_packages [] gs h = h
  all_distinct-group_packages (p ∷ ps) gs h = elim (Bool-cases (is_nameless p)) [
    | inl skipped ↦ rw skipped (all_distinct-group_packages ps gs h)
    | inr listed ↦ rw listed (
        all_distinct-group_packages ps (append_to (key_of p) p gs)
          (all_distinct-append_to (key_of p) p gs h))
  ]

  lacks_name-group_packages :
      (k : Bytes) (ps : List Package) (gs : List PackageMatchGroup)
      → lacks_name k (keys_of (group_packages key_of ps gs))
        ≡ (lacks_name k (keys_of gs) && all_of (λ p. not (is_in_group k p)) ps)
  unfolding group_packages
  lacks_name-group_packages k [] gs = ground arith
  lacks_name-group_packages k (p ∷ ps) gs = elim (Bool-cases (is_nameless p)) [
    | inl skipped ↦ rw skipped (lacks_name-group_packages k ps gs)
    | inr listed ↦ rw listed (
        lacks_name-group_packages k ps (append_to (key_of p) p gs)
        ∙ rw (lacks_name-append_to k (key_of p) p gs) (ground arith))
  ]

  -- The packages parted by these keys.
  abbrev pub parted : List Package → List Bytes → List PackageMatchGroup
  parted ps = map (λ k. record { key = k; pkgs = filter (is_in_group k) ps })

  sorted_groups-parted :
      (ps : List Package) (ks : List Bytes)
      → map (group_at (group_packages key_of ps [])) ks ≡ parted ps ks
  unfolding packages_at
  sorted_groups-parted ps [] = refl
  sorted_groups-parted ps (k ∷ ks) =
      ap₂ (λ qs gs. record { key = k; pkgs = qs } ∷ gs) (packages_at-group_packages k ps [])
        (sorted_groups-parted ps ks)

keys_of-group_at :
    (gs : List PackageMatchGroup) (ks : List Bytes) → keys_of (map (group_at gs) ks) ≡ ks
keys_of-group_at gs [] = refl
keys_of-group_at gs (k ∷ ks) = ap (◌∷◌ k) (keys_of-group_at gs ks)

-- The groups of `packageMatchGroups` have keys that ascend and differ from each other; the
-- packages of a group are, in their order, those that have a name, a version and its key; and a
-- key has a group exactly when some package with a name and a version has it.
pub package_match_groups-parted :
    (pkgs : List Package) (host : Host)
    → let key_of = λ (p : Package). package_match_group_key p host in
      let groups = package_match_groups pkgs host in
      (groups ≡ parted key_of pkgs (keys_of groups))
      × (ascending string_le (keys_of groups) ≡ true)
      × (all_distinct (keys_of groups) ≡ true)
      × ((k : Bytes)
          → lacks_name k (keys_of groups) ≡ all_of (λ p. not (is_in_group key_of k p)) pkgs)
unfolding package_match_groups
package_match_groups-parted pkgs host =
    let key_of : Package → Bytes = λ p. package_match_group_key p host in
    let grouped = group_packages key_of pkgs [] in
    let ks = sort string_le (keys_of grouped) in
    let same = keys_of-group_at grouped ks in
    (
      sorted_groups-parted key_of pkgs ks ∙ ap (parted key_of pkgs) (sym same),
      ap (ascending string_le) same
          ∙ sort-ascending string_le string_le_total string_le_trans (keys_of grouped),
      ap all_distinct same
          ∙ all_distinct-sort string_le (keys_of grouped)
              (all_distinct-group_packages key_of pkgs [] refl),
      λ k.
          ap (lacks_name k) same
          ∙ all_of-sort string_le (other_than k) (keys_of grouped)
          ∙ lacks_name-group_packages key_of k pkgs [],
    )
