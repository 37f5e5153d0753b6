-- ===== src/Cvematch.antt =====
-- internal/server/cvematch: the packages and the host that are matched
-- (internal/shared/models/models.go), with the fields that this package reads.
pub mod Purl
pub mod Sbom
pub mod CycloneDx
pub mod Spdx
pub mod Groups
mod Tests
use bongsu.Prelude.{Bool, ◌||◌, List, [], ◌∷◌, if◌then◌else◌}
use bongsu.Text.{Bytes, is_empty}

pub record Package : Type 0 where
  pub id : Bytes
  pub scan_id : Bytes
  pub host_id : Bytes
  pub asset_type : Bytes
  pub asset_id : Bytes
  pub source : Bytes
  pub container : Bytes
  pub container_id : Bytes
  pub image_name : Bytes
  pub image_id : Bytes
  pub name : Bytes
  pub version : Bytes
  pub arch : Bytes
  pub pkg_type : Bytes
  pub ecosystem : Bytes
  pub purl : Bytes
  pub src_name : Bytes
  pub file_path : Bytes
  pub target : Bytes

pub record Host : Type 0 where
  pub id : Bytes
  pub hostname : Bytes
  pub ip_address : Bytes
  pub os_name : Bytes
  pub os_version : Bytes
  pub kernel : Bytes
  pub arch : Bytes
  pub owner : Bytes
  pub team : Bytes
  pub environment : Bytes
  pub criticality : Bytes
  pub tags : Bytes

abbrev pub first_non_empty : List Bytes → Bytes
first_non_empty [] = []
first_non_empty (v ∷ vs) = if is_empty v then first_non_empty vs else v

-- The loops skip such a package.
abbrev pub is_nameless : Package → Bool
is_nameless p = is_empty p.name || is_empty p.version
