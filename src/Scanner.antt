-- ===== src/Scanner.antt =====
-- internal/agent/scanner: the package databases of a host, and its lock files. A package's random identifier is left
-- out.
pub mod Ecosystem
pub mod Lines
pub mod Apk
pub mod Dpkg
pub mod Rpm
pub mod Lang
pub mod Root
mod Tests
use bongsu.Text.{Bytes}

-- internal/shared/models: the fields of `Package` that the scanner sets.
pub record Package : Type 0 where
  pub name : Bytes
  pub version : Bytes
  pub arch : Bytes
  pub pkg_type : Bytes
  pub ecosystem : Bytes
  pub src_name : Bytes
  pub purl : Bytes
  pub source : Bytes
  pub file_path : Bytes
