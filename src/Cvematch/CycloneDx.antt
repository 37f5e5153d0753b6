-- ===== src/Cvematch/CycloneDx.antt =====
-- internal/server/cvematch/sbom.go: the CycloneDX document, as it is given to `json.Marshal`.
pub mod Refs
use bongsu.Prelude.{
  ℕ, Bool, true, false, not, ◌&&◌, ◌||◌, Option, none, some, List, [], ◌∷◌, ◌++◌, map,
  if◌then◌else◌,
}
use bongsu.Text.{Bytes, codes, is_empty, join}
use bongsu.Cvematch.{Package, Host, is_nameless}
use bongsu.Cvematch.Purl.{build_purl}
use bongsu.Cvematch.Sbom.{
  Digests, stable_ref, latest_scan_id, default_spdx_name, Counts, unique_bom_ref,
}

pub record CdxProperty : Type 0 where
  pub name : Bytes
  pub value : Bytes

pub record CdxComponent : Type 0 where
  pub kind : Bytes
  pub name : Bytes
  pub version : Bytes
  pub bom_ref : Bytes
  pub purl : Bytes
  pub scope : Bytes
  pub properties : List CdxProperty

pub record CdxDependency : Type 0 where
  pub ref : Bytes
  pub depends_on : List Bytes

pub record CdxTool : Type 0 where
  pub vendor : Bytes
  pub name : Bytes
  pub version : Bytes

pub record CdxRoot : Type 0 where
  pub bom_ref : Bytes
  pub kind : Bytes
  pub name : Bytes
  pub version : Bytes
  pub properties : List CdxProperty

pub record CycloneDx : Type 0 where
  pub bom_format : Bytes
  pub spec_version : Bytes
  pub serial_number : Bytes
  pub version : ℕ
  pub timestamp : Bytes
  pub tools : List CdxTool
  pub component : CdxRoot
  pub components : List CdxComponent
  pub dependencies : List CdxDependency

unfoldable pub cyclone_dx_package_identity : Package → Bytes
unfolding join
cyclone_dx_package_identity pkg = join 0 (
    pkg.asset_type ∷ pkg.asset_id ∷ pkg.source ∷ pkg.container ∷ pkg.container_id ∷ pkg.image_name
    ∷ pkg.name ∷ pkg.version ∷ pkg.arch ∷ pkg.pkg_type ∷ pkg.ecosystem ∷ pkg.purl ∷ pkg.file_path
    ∷ pkg.target ∷ [])

abbrev pub property_of : Bytes × Bytes → CdxProperty
property_of (n, v) = record { name = codes "bongsu:" ++ n; value = v }

abbrev pub package_properties : Package → List CdxProperty
package_properties pkg = map property_of (
    (codes "package_id", pkg.id)
    ∷ (codes "scan_id", pkg.scan_id)
    ∷ (codes "host_id", pkg.host_id)
    ∷ (codes "asset_type", pkg.asset_type)
    ∷ (codes "asset_id", pkg.asset_id)
    ∷ (codes "source", pkg.source)
    ∷ (codes "pkg_type", pkg.pkg_type)
    ∷ (codes "ecosystem", pkg.ecosystem)
    ∷ (codes "container", pkg.container)
    ∷ (codes "container_id", pkg.container_id)
    ∷ (codes "image_name", pkg.image_name)
    ∷ (codes "image_id", pkg.image_id)
    ∷ (codes "file_path", pkg.file_path)
    ∷ (codes "target", pkg.target)
    ∷ [])

abbrev pub component_of : Host → Package → Bytes → CdxComponent
component_of host pkg ref = record {
  kind = codes "library";
  name = pkg.name;
  version = pkg.version;
  bom_ref = ref;
  purl = build_purl pkg host;
  scope = codes "required";
  properties = package_properties pkg;
}

abbrev pub base_ref : Digests → Package → Bytes
base_ref d pkg = codes "bongsu:pkg:" ++ stable_ref d (cyclone_dx_package_identity pkg)

-- The loop over the packages.
unfoldable pub components_of : Digests → Host → Counts → List Package → List CdxComponent
unfolding unique_bom_ref cyclone_dx_package_identity build_purl
components_of d host seen [] = []
components_of d host seen (pkg ∷ pkgs) = elim (is_nameless pkg) [
  | true ↦ components_of d host seen pkgs
  | false ↦
      let (ref, next) = unique_bom_ref (base_ref d pkg) seen in
      component_of host pkg ref ∷ components_of d host next pkgs
]

abbrev pub host_properties : Host → Bytes → List CdxProperty
host_properties host scan_id = map property_of (
    (codes "host_id", host.id)
    ∷ (codes "scan_id", scan_id)
    ∷ (codes "ip_address", host.ip_address)
    ∷ (codes "os_name", host.os_name)
    ∷ (codes "os_version", host.os_version)
    ∷ (codes "kernel", host.kernel)
    ∷ (codes "arch", host.arch)
    ∷ (codes "owner", host.owner)
    ∷ (codes "team", host.team)
    ∷ (codes "environment", host.environment)
    ∷ (codes "criticality", host.criticality)
    ∷ (codes "tags", host.tags)
    ∷ [])

unfoldable pub root_ref : Digests → Host → Bytes
unfolding default_spdx_name
root_ref d host = codes "bongsu:host:" ++ stable_ref d (default_spdx_name host.id host.hostname)

abbrev pub leaf : Bytes → CdxDependency
leaf ref = record { ref = ref; depends_on = [] }

abbrev pub refs_of : List CdxComponent → List Bytes
refs_of = map (λ (c : CdxComponent). c.bom_ref)

abbrev pub serial_number : Digests → Host → Bytes → Bytes
serial_number d host scan_id =
    if is_empty scan_id
    then []
    else codes "urn:uuid:"
      ++ d.uuid_sha1 (codes "bongsu:cyclonedx:" ++ host.id ++ codes ":" ++ scan_id)

abbrev pub document : Digests → Bytes → Host → Bytes → List CdxComponent → CycloneDx
document d now host scan_id components = record {
  bom_format = codes "CycloneDX";
  spec_version = codes "1.5";
  serial_number = serial_number d host scan_id;
  version = 1;
  timestamp = now;
  tools = record { vendor = codes "ziozzang"; name = codes "bongsu"; version = codes "0.1.0" } ∷ [];
  component = record {
    bom_ref = root_ref d host;
    kind = codes "application";
    name = host.hostname;
    version = host.os_name ++ codes " " ++ host.os_version;
    properties = host_properties host scan_id;
  };
  components = components;
  dependencies =
      record { ref = root_ref d host; depends_on = refs_of components }
      ∷ map leaf (refs_of components);
}

abbrev pub made : Digests → Bytes → Host → List Package → List CdxComponent → Option CycloneDx
made d now host pkgs [] = none
made d now host pkgs (c ∷ cs) = some (document d now host (latest_scan_id pkgs) (c ∷ cs))

-- `none` is the error that there are no valid packages; `now` is the time as text.
unfoldable pub generate_cyclone_dx : Digests → Bytes → List Package → Host → Option CycloneDx
unfolding components_of latest_scan_id root_ref
generate_cyclone_dx d now pkgs host = made d now host pkgs (components_of d host [] pkgs)
