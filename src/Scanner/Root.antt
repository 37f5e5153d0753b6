-- ===== src/Scanner/Root.antt =====
-- internal/agent/scanner/scanner.go: `ScanRoot`, which reads the first package database of a root, with the
-- choices of `scanRPM` in rpm.go. What stands under the root is a parameter.
pub mod ReadBack
use bongsu.Prelude.{Bool, true, false, Option, List, [], if◌then◌else◌}
use bongsu.Prelude.Result.{Result, ok, err}
use bongsu.Text.{Bytes, codes, equal}
use bongsu.Scanner.{Package}
use bongsu.Scanner.Ecosystem.{distro_id_from_root}
use bongsu.Scanner.Apk.{parse_apk_installed}
use bongsu.Scanner.Dpkg.{parse_dpkg_status}
use bongsu.Scanner.Rpm.{parse_rpm_query}

-- What is found at the path of a database. A file that lies outside of the root is not opened.
pub data Database : Type 0 where
  absent : Database
  not_opened : Bytes → Database
  content : Bytes → Database

-- The database of RPM, and what the program rpm says of it.
pub data RpmDatabase : Type 0 where
  no_database no_program : RpmDatabase
  rpm_fails : Bytes → RpmDatabase
  rpm_prints : Bytes → RpmDatabase

pub record Root : Type 0 where
  pub dpkg_status : Database
  pub apk_installed : Database
  pub rpm_database : RpmDatabase
  pub os_release : Option Bytes

pub record ScanResult : Type 0 where
  pub packages : List Package
  pub os_family : Bytes
  pub source : Bytes

pub data ScanError : Type 0 where
  line_too_long : ScanError
  not_read : Bytes → ScanError

-- Debian, unless the root says Ubuntu.
abbrev pub dpkg_type : Bytes → Bytes
dpkg_type id = if equal id (codes "ubuntu") then id else codes "debian"

abbrev pub scan_rpm : RpmDatabase → Result ScanError ScanResult
scan_rpm no_database = ok (record { packages = []; os_family = []; source = [] })
scan_rpm no_program =
    ok (record { packages = []; os_family = codes "rhel"; source = codes "rpmdb-unreadable" })
scan_rpm (rpm_fails e) = err (not_read e)
scan_rpm (rpm_prints out) =
    ok (record { packages = parse_rpm_query out; os_family = codes "rhel"; source = codes "rpm" })

-- A line that is too long is an error here, unlike in a file of dpkg.
abbrev pub apk_result : List Package × Bool → Result ScanError ScanResult
apk_result (packages, true) = err line_too_long
apk_result (packages, false) =
    ok (record { packages = packages; os_family = codes "alpine"; source = codes "apk" })

abbrev pub scan_apk : RpmDatabase → Database → Result ScanError ScanResult
scan_apk rpm absent = scan_rpm rpm
scan_apk rpm (not_opened e) = err (not_read e)
scan_apk rpm (content file) = apk_result (parse_apk_installed file)

abbrev pub scan_dpkg : Root → Database → Result ScanError ScanResult
scan_dpkg r absent = scan_apk r.rpm_database r.apk_installed
scan_dpkg r (not_opened e) = err (not_read e)
scan_dpkg r (content file) =
    let pkg_type = dpkg_type (distro_id_from_root r.os_release) in
    ok (record {
      packages = parse_dpkg_status pkg_type file;
      os_family = pkg_type;
      source = codes "dpkg";
    })

unfoldable pub scan_root : Root → Result ScanError ScanResult
unfolding parse_rpm_query parse_apk_installed parse_dpkg_status distro_id_from_root equal
scan_root r = scan_dpkg r r.dpkg_status
