-- ===== src/Cvematch/Tests.antt =====
-- Documents and groups of concrete packages.
use bongsu.Prelude.{◌≡◌, refl, true, not, List, [], ◌∷◌, map, all_of, length}
use bongsu.Prelude.Sort.{ascending}
use bongsu.Text.{Bytes, codes}
use bongsu.Text.Order.{string_le}
use bongsu.Text.Distinct.{lacks_name, all_distinct}
use bongsu.Cvematch.{Package, Host}
use bongsu.Cvematch.Purl.{build_purl, infer_os_pkg_type}
use bongsu.Cvematch.Sbom.{Digests}
use bongsu.Cvematch.CycloneDx.{generate_cyclone_dx}
use bongsu.Cvematch.CycloneDx.Refs.{IsSbomOf, generate_cyclone_dx-IsSbomOf}
use bongsu.Cvematch.Spdx.Records.{SpdxPackage}
use bongsu.Cvematch.Spdx.{spdx_packages}
use bongsu.Cvematch.Groups.{
  PackageMatchGroup, package_match_group_key, package_match_groups, keys_of,
}
use bongsu.Cvematch.Groups.Laws.{parted, is_in_group, package_match_groups-parted}

abbrev plain : Bytes → Bytes → Bytes → Package
plain name version pkg_type = record {
  id = [];
  scan_id = codes " s1 ";
  host_id = codes "h1";
  asset_type = [];
  asset_id = [];
  source = [];
  container = [];
  container_id = [];
  image_name = [];
  image_id = [];
  name = name;
  version = version;
  arch = codes "amd64";
  pkg_type = pkg_type;
  ecosystem = [];
  purl = [];
  src_name = [];
  file_path = [];
  target = [];
}

abbrev host : Host
host = record {
  id = codes "h1";
  hostname = codes "web";
  ip_address = [];
  os_name = codes "Alpine Linux";
  os_version = codes "3.19";
  kernel = [];
  arch = [];
  owner = [];
  team = [];
  environment = [];
  criticality = [];
  tags = [];
}

-- A digest that tells nothing apart.
abbrev same_digest : Digests
same_digest = record { sha1_hex = λ s. codes "da39"; uuid_sha1 = λ s. codes "u" }

abbrev three : List Package
three =
    plain (codes "log4j:core") (codes "2.1") (codes "jar")
    ∷ plain (codes "bash") [] (codes "deb")
    ∷ plain (codes "bash") (codes "5.2") (codes "deb")
    ∷ []

purl_runs :
    map (λ p. build_purl p host) three
    ≡ codes "pkg:maven/log4j/core@2.1"
      ∷ codes "pkg:deb/bash@?arch=amd64"
      ∷ codes "pkg:deb/bash@5.2?arch=amd64"
      ∷ []
unfolding build_purl
purl_runs = refl

-- A package of the system of an Alpine host gets the type of Debian.
alpine_run : infer_os_pkg_type host.os_name ≡ codes "deb"
unfolding infer_os_pkg_type
alpine_run = refl

generate_cyclone_dx-IsSbomOf_example :
    IsSbomOf three (generate_cyclone_dx same_digest (codes "now") three host)
generate_cyclone_dx-IsSbomOf_example =
    generate_cyclone_dx-IsSbomOf same_digest (codes "now") three host (λ s. refl)

-- A third package takes the number that was given to the second one.
abbrev clash : List Package
clash =
    plain (codes "foo") (codes "1") (codes "npm")
    ∷ plain (codes "foo") (codes "1") (codes "npm")
    ∷ plain (codes "foo") (codes "1-2") (codes "npm")
    ∷ []

clash_run :
    map (λ (p : SpdxPackage). p.spdx_id) (spdx_packages same_digest host [] clash)
    ≡ codes "SPDXRef-Package-foo-1"
      ∷ codes "SPDXRef-Package-foo-1-2"
      ∷ codes "SPDXRef-Package-foo-1-2"
      ∷ []
unfolding spdx_packages
clash_run = refl

groups_run :
    map (λ (g : PackageMatchGroup). length g.pkgs) (package_match_groups three host) ≡ 1 ∷ 1 ∷ []
unfolding package_match_groups
groups_run = refl

package_match_groups-parted_example :
    let key_of = λ (p : Package). package_match_group_key p host in
    let groups = package_match_groups three host in
    (groups ≡ parted key_of three (keys_of groups))
    × (ascending string_le (keys_of groups) ≡ true)
    × (all_distinct (keys_of groups) ≡ true)
    × ((k : Bytes)
        → lacks_name k (keys_of groups) ≡ all_of (λ p. not (is_in_group key_of k p)) three)
package_match_groups-parted_example = package_match_groups-parted three host
