-- ===== src/Classify.antt =====
-- internal/server/db/classify.go: the data of an advisory as its JSON is decoded.
pub mod Ecosystem
pub mod Fixed
pub mod Range
pub mod Cpe
pub mod Candidate
mod Tests
use bongsu.Prelude.{List}
use bongsu.Text.{Bytes}

pub record AffectedRangeEvent : Type 0 where
  pub introduced : Bytes
  pub fixed : Bytes
  pub last_affected : Bytes
  pub limit : Bytes

pub record AffectedRange : Type 0 where
  pub typ : Bytes
  pub events : List AffectedRangeEvent

pub record AffectedProduct : Type 0 where
  pub name : Bytes
  pub ecosystem : Bytes
  pub fixed : List Bytes
  pub ranges : List AffectedRange
  pub vendor : Bytes
  pub product : Bytes
  pub version : Bytes
  pub version_start_including : Bytes
  pub version_start_excluding : Bytes
  pub version_end_including : Bytes
  pub version_end_excluding : Bytes
