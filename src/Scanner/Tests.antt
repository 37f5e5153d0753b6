-- ===== src/Scanner/Tests.antt =====
-- The parsers at concrete files.
use bongsu.Prelude.{◌≡◌, refl, some, List, [], ◌∷◌, ◌++◌, map}
use bongsu.Prelude.Sort.{filter}
use bongsu.Prelude.Result.{ok}
use bongsu.Text.{codes, equal, trim_space}
use bongsu.Scanner.{Package}
use bongsu.Scanner.Ecosystem.{purl_for_package, distro_id_from_root}
use bongsu.Scanner.Apk.{parse_apk_installed}
use bongsu.Scanner.Apk
use bongsu.Scanner.Dpkg.{parse_dpkg_status, dpkg_source_name}
use bongsu.Scanner.Dpkg
use bongsu.Scanner.Dpkg.RoundTrip.{Field, print_status, fields_of, is_reported}
use bongsu.Scanner.Apk.RoundTrip.{print_installed}
use bongsu.Scanner.Rpm.{parse_rpm_query}
use bongsu.Scanner.Root.{absent, content, no_database, Root, dpkg_type, scan_root}
use bongsu.Scanner.Root.ReadBack.{scan_root-print}

purl_run :
    purl_for_package (codes "Deb") (codes "bash") (codes "5.2") (codes "amd64")
    ≡ codes "pkg:deb/bash@5.2?arch=amd64"
unfolding purl_for_package
purl_run = refl

abbrev musl : Apk.Fields
musl = record {
  name = codes "musl";
  version = codes "1.2.4-r2";
  arch = codes "x86_64";
  origin = [];
}

abbrev bash_fields : List Field
bash_fields =
    (codes "Package", codes "bash")
    ∷ (codes "Status", codes "install ok installed")
    ∷ (codes "Version", codes "5.2-1")
    ∷ []

-- Its configuration files are left.
abbrev removed_fields : List Field
removed_fields =
    (codes "Package", codes "nano")
    ∷ (codes "Status", codes "deinstall ok config-files")
    ∷ (codes "Version", codes "7.2")
    ∷ []

-- Its installation was not finished.
abbrev half_fields : List Field
half_fields =
    (codes "Package", codes "vim")
    ∷ (codes "Status", codes "install ok half-installed")
    ∷ (codes "Version", codes "9.0")
    ∷ []

abbrev stanzas : List (List Field)
stanzas = bash_fields ∷ removed_fields ∷ half_fields ∷ []

abbrev ubuntu : Root
ubuntu = record {
  dpkg_status = absent;
  apk_installed = absent;
  rpm_database = no_database;
  os_release = some (codes "ID=ubuntu\n");
}

scan_root-print_example :
    let pkg_type = dpkg_type (distro_id_from_root ubuntu.os_release) in
    (scan_root (record ubuntu { dpkg_status = content (print_status stanzas) })
      ≡ ok (record {
        packages = map (Dpkg.package_of pkg_type) (filter is_reported (map fields_of stanzas));
        os_family = pkg_type;
        source = codes "dpkg";
      }))
    × (scan_root (record ubuntu {
      dpkg_status = absent;
      apk_installed = content (print_installed (musl ∷ musl ∷ []));
    })
        ≡ ok (record {
          packages = map Apk.package_of (musl ∷ musl ∷ []);
          os_family = codes "alpine";
          source = codes "apk";
        }))
unfolding equal trim_space
scan_root-print_example = scan_root-print ubuntu stanzas (musl ∷ musl ∷ []) refl refl

ubuntu_test : dpkg_type (distro_id_from_root ubuntu.os_release) ≡ codes "ubuntu"
unfolding distro_id_from_root equal
ubuntu_test = refl

-- What is not wholly installed is reported, too.
half_run :
    map (λ (p : Package). p.name) (parse_dpkg_status (codes "debian") (print_status stanzas))
    ≡ codes "bash" ∷ codes "vim" ∷ []
unfolding parse_dpkg_status print_status
half_run = refl

source_run : dpkg_source_name (codes " tools (34.0.5-12)") (codes "adb") ≡ codes "tools"
unfolding dpkg_source_name
source_run = refl

rpm_run :
    map
      (λ (p : Package). p.version)
      (parse_rpm_query
        (codes "bash" ++ 9 ∷ codes "1" ++ 9 ∷ codes "5.2-3" ++ 9 ∷ codes "x86_64" ++ 10 ∷ []))
    ≡ codes "1:5.2-3" ∷ []
unfolding parse_rpm_query
rpm_run = refl

distro_run :
    distro_id_from_root
      (some (codes "NAME=x" ++ 10 ∷ codes " ID=" ++ 34 ∷ codes "Alpine" ++ 34 ∷ 10 ∷ []))
    ≡ codes "alpine"
unfolding distro_id_from_root
distro_run = refl
