-- ===== src/Cvematch/Spdx/Records.antt =====
-- internal/server/cvematch/sbom.go: the parts of an SPDX document.
use bongsu.Prelude.{Bool, List}
use bongsu.Text.{Bytes}

pub record SpdxCreationInfo : Type 0 where
  pub created : Bytes
  pub creators : List Bytes

pub record SpdxExternalRef : Type 0 where
  pub reference_category : Bytes
  pub reference_type : Bytes
  pub reference_locator : Bytes

pub record SpdxPackage : Type 0 where
  pub spdx_id : Bytes
  pub name : Bytes
  pub version_info : Bytes
  pub download_location : Bytes
  pub files_analyzed : Bool
  pub package_verification_code : Bytes
  pub license_concluded : Bytes
  pub license_declared : Bytes
  pub copyright_text : Bytes
  pub supplier : Bytes
  pub package_url : Bytes
  pub external_refs : List SpdxExternalRef
  pub comment : Bytes

pub record SpdxRelationship : Type 0 where
  pub spdx_element_id : Bytes
  pub relationship_type : Bytes
  pub related_spdx_element : Bytes

pub record SpdxDocument : Type 0 where
  pub spdx_id : Bytes
  pub spdx_version : Bytes
  pub creation_info : SpdxCreationInfo
  pub name : Bytes
  pub data_license : Bytes
  pub document_namespace : Bytes
  pub packages : List SpdxPackage
  pub relationships : List SpdxRelationship
