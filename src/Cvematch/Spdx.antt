-- ===== src/Cvematch/Spdx.antt =====
-- internal/server/cvematch/sbom.go: the SPDX document, as it is given to `json.Marshal`. A string of
-- `sanitize_spdx_id` is the list of its runes.
pub mod Records
use mathlib.Core.List.{reverse}
use bongsu.Prelude.{
  ℕ, Bool, true, false, ◌||◌, Option, none, some, List, [], ◌∷◌, ◌++◌, map, ◌==◌, if◌then◌else◌,
  drop_while,
}
use bongsu.Text.{Bytes, codes, within, is_empty, trim_space, join}
use bongsu.Cvematch.{Package, Host, is_nameless}
use bongsu.Cvematch.Spdx.Records.{
  SpdxCreationInfo, SpdxExternalRef, SpdxPackage, SpdxRelationship, SpdxDocument,
}
use bongsu.Cvematch.Purl.{build_purl}
use bongsu.Cvematch.Sbom.{
  Digests, stable_ref, latest_scan_id, default_spdx_name, Counts, count_of, counted, numbered,
}

abbrev pub spdx_rune : ℕ → ℕ
spdx_rune r =
    if within b'A' b'Z' r || within b'a' b'z' r || within b'0' b'9' r || r == b'.' || r == b'-'
    then r
    else b'-'

abbrev pub is_mark : ℕ → Bool
is_mark c = c == b'-' || c == b'.'

-- `strings.Trim(s, "-.")`.
unfoldable pub trim_marks : Bytes → Bytes
unfolding drop_while
trim_marks s = reverse (drop_while is_mark (reverse (drop_while is_mark s)))

unfoldable pub sanitize_spdx_id : List ℕ → Bytes
unfolding trim_space trim_marks
sanitize_spdx_id s =
    let out = trim_marks (map spdx_rune (trim_space s)) in
    if is_empty out then codes "unknown" else out

abbrev pub spdx_package_identity : Package → List Bytes
spdx_package_identity pkg =
    pkg.asset_type ∷ pkg.asset_id ∷ pkg.source ∷ pkg.container ∷ pkg.container_id ∷ pkg.image_name
    ∷ pkg.image_id ∷ pkg.name ∷ pkg.version ∷ pkg.arch ∷ pkg.pkg_type ∷ pkg.ecosystem ∷ pkg.purl
    ∷ pkg.src_name ∷ pkg.file_path ∷ pkg.target ∷ []

unfoldable pub spdx_package_verification_code : Digests → List Bytes → Bytes
unfolding join
spdx_package_verification_code d parts = d.sha1_hex (join 0 parts)

unfoldable pub identities : List Package → List Bytes
identities [] = []
identities (pkg ∷ pkgs) =
    let rest = identities pkgs in
    if is_nameless pkg then rest else spdx_package_identity pkg ++ rest

unfoldable pub spdx_document_namespace_suffix : Digests → Host → List Package → Bytes
unfolding join identities latest_scan_id
spdx_document_namespace_suffix d host pkgs = stable_ref d (
    join 0 (
      host.id
      ∷ host.hostname
      ∷ host.os_name
      ∷ host.os_version
      ∷ latest_scan_id pkgs
      ∷ identities pkgs))

-- `fmt.Sprintf` of names and values, each pair behind a blank.
unfoldable pub pairs_text : List (Bytes × Bytes) → Bytes
pairs_text [] = []
pairs_text ((n, v) ∷ ps) = codes " " ++ n ++ codes "=" ++ v ++ pairs_text ps

abbrev pub no_assertion : Bytes
no_assertion = codes "NOASSERTION"

unfoldable pub package_comment : Package → Bytes
unfolding pairs_text
package_comment pkg =
    codes "bongsu"
    ++ pairs_text (
        (codes "package_id", pkg.id)
        ∷ (codes "scan_id", pkg.scan_id)
        ∷ (codes "asset_type", pkg.asset_type)
        ∷ (codes "asset_id", pkg.asset_id)
        ∷ (codes "source", pkg.source)
        ∷ (codes "pkg_type", pkg.pkg_type)
        ∷ (codes "ecosystem", pkg.ecosystem)
        ∷ (codes "container", pkg.container)
        ∷ (codes "container_id", pkg.container_id)
        ∷ (codes "image_name", pkg.image_name)
        ∷ (codes "image_id", pkg.image_id)
        ∷ (codes "file_path", pkg.file_path)
        ∷ (codes "target", pkg.target)
        ∷ [])

unfoldable pub host_comment : Host → Bytes → Bytes
unfolding pairs_text
host_comment host scan_id =
    codes "bongsu"
    ++ pairs_text (
        (codes "host_id", host.id)
        ∷ (codes "scan_id", scan_id)
        ∷ (codes "ip_address", host.ip_address)
        ∷ (codes "owner", host.owner)
        ∷ (codes "team", host.team)
        ∷ (codes "environment", host.environment)
        ∷ (codes "criticality", host.criticality)
        ∷ [])

unfoldable pub spdx_package : Digests → Host → Package → Bytes → SpdxPackage
unfolding build_purl spdx_package_verification_code package_comment
spdx_package d host pkg spdx_id = record {
  spdx_id = spdx_id;
  name = pkg.name;
  version_info = pkg.version;
  download_location = no_assertion;
  files_analyzed = false;
  package_verification_code = spdx_package_verification_code d (spdx_package_identity pkg);
  license_concluded = no_assertion;
  license_declared = no_assertion;
  copyright_text = no_assertion;
  supplier = no_assertion;
  package_url = build_purl pkg host;
  external_refs =
      record {
        reference_category = codes "PACKAGE-MANAGER";
        reference_type = codes "purl";
        reference_locator = build_purl pkg host;
      }
      ∷ [];
  comment = package_comment pkg;
}

abbrev pub contains_relation : Bytes → Bytes → SpdxRelationship
contains_relation root_id spdx_id = record {
  spdx_element_id = root_id;
  relationship_type = codes "CONTAINS";
  related_spdx_element = spdx_id;
}

unfoldable pub base_id : Package → Bytes
unfolding sanitize_spdx_id
base_id pkg = codes "SPDXRef-Package-" ++ sanitize_spdx_id (pkg.name ++ codes "-" ++ pkg.version)

-- The loop: the packages that it appends, with their identifiers.
unfoldable pub spdx_packages : Digests → Host → Counts → List Package → List SpdxPackage
unfolding base_id count_of numbered spdx_package
spdx_packages d host seen [] = []
spdx_packages d host seen (pkg ∷ pkgs) = elim (is_nameless pkg) [
  | true ↦ spdx_packages d host seen pkgs
  | false ↦
      let next = counted (base_id pkg) seen in
      spdx_package d host pkg (numbered (base_id pkg) (count_of (base_id pkg) next))
      ∷ spdx_packages d host next pkgs
]

abbrev pub with_scan_id : Bytes → Bytes → Bytes
with_scan_id namespace_id scan_id =
    if is_empty scan_id then namespace_id else namespace_id ++ codes "-" ++ sanitize_spdx_id scan_id

unfoldable pub root_id : Host → Bytes
unfolding sanitize_spdx_id default_spdx_name
root_id host = codes "SPDXRef-Host-" ++ sanitize_spdx_id (default_spdx_name host.id host.hostname)

unfoldable pub root_package : Digests → Host → Bytes → SpdxPackage
unfolding root_id default_spdx_name trim_space spdx_package_verification_code host_comment
root_package d host scan_id = record {
  spdx_id = root_id host;
  name = default_spdx_name host.hostname host.id;
  version_info = trim_space (host.os_name ++ codes " " ++ host.os_version);
  download_location = no_assertion;
  files_analyzed = false;
  package_verification_code =
      spdx_package_verification_code d
        (host.id ∷ host.hostname ∷ host.os_name ∷ host.os_version ∷ []);
  license_concluded = no_assertion;
  license_declared = no_assertion;
  copyright_text = no_assertion;
  supplier = codes "Organization: bongsu";
  package_url = [];
  external_refs = [];
  comment = host_comment host scan_id;
}

abbrev pub document_id : Bytes
document_id = codes "SPDXRef-DOCUMENT"

unfoldable pub document :
    Digests → Bytes → List Package → Host → Bytes → List SpdxPackage → SpdxDocument
unfolding root_id root_package sanitize_spdx_id default_spdx_name spdx_document_namespace_suffix
document d now pkgs host scan_id ps = record {
  spdx_id = document_id;
  spdx_version = codes "SPDX-2.3";
  creation_info = record { created = now; creators = codes "Tool: bongsu-0.1.0" ∷ [] };
  name = codes "bongsu-" ++ sanitize_spdx_id (default_spdx_name host.hostname host.id);
  data_license = codes "CC0-1.0";
  document_namespace =
      codes "https://bongsu.local/spdx/"
      ++ with_scan_id (sanitize_spdx_id (default_spdx_name host.id host.hostname)) scan_id
      ++ codes "/"
      ++ spdx_document_namespace_suffix d host pkgs;
  packages = root_package d host scan_id ∷ ps;
  relationships =
      record {
        spdx_element_id = document_id;
        relationship_type = codes "DESCRIBES";
        related_spdx_element = root_id host;
      }
      ∷ map (λ (p : SpdxPackage). contains_relation (root_id host) p.spdx_id) ps;
}

abbrev pub made : Digests → Bytes → List Package → Host → List SpdxPackage → Option SpdxDocument
made d now pkgs host [] = none
made d now pkgs host (p ∷ ps) = some (document d now pkgs host (latest_scan_id pkgs) (p ∷ ps))

-- `none` is the error that there are no valid packages; `now` is the time as text.
unfoldable pub generate_spdx : Digests → Bytes → List Package → Host → Option SpdxDocument
unfolding spdx_packages document latest_scan_id
generate_spdx d now pkgs host = made d now pkgs host (spdx_packages d host [] pkgs)
