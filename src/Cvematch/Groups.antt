-- ===== src/Cvematch/Groups.antt =====
-- internal/server/cvematch/matcher.go: the groups of packages that are matched together, and the
-- loop over the groups. A map is the list of its keys in the order in which they were set.
pub mod Laws
use bongsu.Prelude.{
  ℕ, zero, suc, Bool, true, false, not, ◌&&◌, ◌||◌, Option, none, some, List, [], ◌∷◌, ◌++◌, map,
  if◌then◌else◌, drop,
}
use bongsu.Prelude.Result.{Result, ok, err}
use bongsu.Prelude.Sort.{insert, sort}
use bongsu.Text.{Bytes, codes, equal, is_empty, trim_space, to_lower, join, has_prefix, one_of}
use bongsu.Text.Order.{string_le}
use bongsu.Cvematch.{Package, Host, first_non_empty, is_nameless}
use bongsu.Cvematch.Purl.{infer_os_pkg_type, contains_any}

unfoldable pub purl_bucket : Bytes → Option Bytes
unfolding has_prefix
purl_bucket purl =
    if has_prefix purl (codes "pkg:deb/")
    then some (codes "deb")
    else if has_prefix purl (codes "pkg:rpm/")
    then some (codes "rpm")
    else if has_prefix purl (codes "pkg:apk/")
    then some (codes "apk")
    else none

unfoldable pub ecosystem_bucket : Bytes → Bytes
unfolding contains_any
ecosystem_bucket eco =
    if contains_any eco (codes "alpine" ∷ [])
    then codes "apk"
    else if contains_any eco (codes "ubuntu" ∷ codes "debian" ∷ [])
    then codes "deb"
    else if contains_any eco (
        codes "red hat"
        ∷ codes "rhel"
        ∷ codes "rocky"
        ∷ codes "almalinux"
        ∷ codes "fedora"
        ∷ codes "centos"
        ∷ codes "amazon"
        ∷ [])
    then codes "rpm"
    else []

-- The part of `normalizedOSPackageType` behind the first switch.
unfoldable pub bucket_by_purl : Package → Bytes
unfolding purl_bucket ecosystem_bucket to_lower trim_space
bucket_by_purl pkg = elim (purl_bucket (to_lower (trim_space pkg.purl))) [
  | some t ↦ t
  | none ↦ ecosystem_bucket (to_lower (trim_space pkg.ecosystem))
]

unfoldable pub normalized_os_package_type : Package → Host → Bytes
unfolding to_lower trim_space one_of equal infer_os_pkg_type bucket_by_purl
normalized_os_package_type pkg host =
    let pkg_type = to_lower (trim_space pkg.pkg_type) in
    let inferred = infer_os_pkg_type (first_non_empty (pkg.ecosystem ∷ host.os_name ∷ [])) in
    if one_of pkg_type (codes "deb" ∷ codes "rpm" ∷ codes "apk" ∷ [])
    then pkg_type
    else if equal pkg_type (codes "os") && not (is_empty inferred)
    then inferred
    else bucket_by_purl pkg

abbrev pub or_default : Bytes → Bytes → Bytes
or_default s default = if is_empty s then default else s

unfoldable pub package_match_group_key : Package → Host → Bytes
unfolding trim_space equal normalized_os_package_type join
package_match_group_key pkg host =
    let asset_type = or_default (trim_space pkg.asset_type) (codes "host") in
    let asset_id =
      if equal asset_type (codes "host")
      then host.id
      else first_non_empty (
          pkg.asset_id ∷ pkg.container_id ∷ pkg.image_id ∷ pkg.image_name ∷ pkg.container ∷ host.id
          ∷ []) in
    join 0
      (asset_type ∷ asset_id ∷ or_default (normalized_os_package_type pkg host) (codes "code") ∷ [])

pub record PackageMatchGroup : Type 0 where
  pub key : Bytes
  pub pkgs : List Package

-- `grouped[key] = append(grouped[key], pkg)`
unfoldable pub append_to : Bytes → Package → List PackageMatchGroup → List PackageMatchGroup
unfolding equal
append_to key pkg [] = record { key = key; pkgs = pkg ∷ [] } ∷ []
append_to key pkg (g ∷ gs) =
    let rest = append_to key pkg gs in
    if equal g.key key then record { key = g.key; pkgs = g.pkgs ++ pkg ∷ [] } ∷ gs else g ∷ rest

-- The first loop.
unfoldable pub group_packages :
    (Package → Bytes) → List Package → List PackageMatchGroup → List PackageMatchGroup
unfolding append_to
group_packages key_of [] grouped = grouped
group_packages key_of (pkg ∷ pkgs) grouped =
    group_packages key_of pkgs
      (if is_nameless pkg then grouped else append_to (key_of pkg) pkg grouped)

-- `grouped[key]`
unfoldable pub packages_at : Bytes → List PackageMatchGroup → List Package
unfolding equal
packages_at key [] = []
packages_at key (g ∷ gs) = let rest = packages_at key gs in if equal g.key key then g.pkgs else rest

abbrev pub keys_of : List PackageMatchGroup → List Bytes
keys_of = map (λ (g : PackageMatchGroup). g.key)

abbrev pub group_at : List PackageMatchGroup → Bytes → PackageMatchGroup
group_at grouped key = record { key = key; pkgs = packages_at key grouped }

abbrev pub sorted_groups : List PackageMatchGroup → List PackageMatchGroup
sorted_groups grouped = map (group_at grouped) (sort string_le (keys_of grouped))

unfoldable pub package_match_groups : List Package → Host → List PackageMatchGroup
unfolding group_packages package_match_group_key packages_at sort insert string_le
package_match_groups pkgs host =
    sorted_groups (group_packages (λ p. package_match_group_key p host) pkgs [])

-- What `Match` returns: its vulnerabilities, or the errors of the groups with their keys.
pub data MatchError (E : Type 0) : Type 0 where
  no_valid_packages : MatchError E
  all_failed : List (Bytes × E) → MatchError E

module _ {V E : Type 0} (match_group : List Package → Result E (List V)) where
  -- The loop: `all` and `failures`.
  unfoldable pub match_loop : List PackageMatchGroup → List V × List (Bytes × E)
  match_loop [] = ([], [])
  match_loop (g ∷ gs) =
      let (all, failures) = match_loop gs in
      elim (match_group g.pkgs) [
        | ok vulns ↦ (vulns ++ all, failures)
        | err e ↦ (all, (g.key, e) ∷ failures)
      ]

  abbrev pub outcome : List V → List (Bytes × E) → Result (MatchError E) (List V)
  outcome (v ∷ vs) failures = ok (v ∷ vs)
  outcome [] (f ∷ fs) = err (all_failed (f ∷ fs))
  outcome [] [] = ok []

  abbrev pub match_groups : List PackageMatchGroup → Result (MatchError E) (List V)
  match_groups [] = err no_valid_packages
  match_groups (g ∷ gs) = let (all, failures) = match_loop (g ∷ gs) in outcome all failures

  unfoldable pub match_packages : List Package → Host → Result (MatchError E) (List V)
  unfolding package_match_groups match_loop
  match_packages pkgs host = match_groups (package_match_groups pkgs host)
