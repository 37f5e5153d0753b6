-- ===== src/Scanner/Root/ReadBack.antt =====
-- What dpkg and apk write into their databases is what a scan of the root reports.
use bongsu.Prelude.{◌≡◌, ap, true, List, all_of, map}
use bongsu.Prelude.Sort.{filter}
use bongsu.Prelude.Result.{ok}
use bongsu.Text.{codes}
use bongsu.Scanner.{Package}
use bongsu.Scanner.Ecosystem.{distro_id_from_root}
use bongsu.Scanner.Apk
use bongsu.Scanner.Apk.RoundTrip.{is_entry, print_installed, parse_apk_installed-print_installed}
use bongsu.Scanner.Dpkg
use bongsu.Scanner.Dpkg.RoundTrip.{
  Field, fields_of, is_field, is_reported, print_status, parse_dpkg_status-print_status,
}
use bongsu.Scanner.Root.{absent, content, Root, dpkg_type, apk_result, scan_root}

-- For a status file of dpkg written from stanzas, one line for each field and an empty line
-- behind each stanza, where the lines fit into the buffer, the names of fields have no colon in
-- them and no blank around them, and the values no blank around them, `ScanRoot` gives the
-- packages of those stanzas, in order, that have a name and a version and whose status is missing
-- or contains "installed", with the type ubuntu if the root says so and debian otherwise; and
-- without a status file, for a database of apk written from packages with a name and a version,
-- whose values have no end of line in them and fit into the buffer, it gives these packages in
-- their order.
pub scan_root-print :
    (r : Root) (ss : List (List Field)) (fs : List Apk.Fields)
    → all_of (all_of is_field) ss ≡ true
    → all_of is_entry fs ≡ true
    → let pkg_type = dpkg_type (distro_id_from_root r.os_release) in
      (scan_root (record r { dpkg_status = content (print_status ss) })
        ≡ ok (record {
          packages = map (Dpkg.package_of pkg_type) (filter is_reported (map fields_of ss));
          os_family = pkg_type;
          source = codes "dpkg";
        }))
      × (scan_root (record r { dpkg_status = absent; apk_installed = content (print_installed fs) })
          ≡ ok (record {
            packages = map Apk.package_of fs;
            os_family = codes "alpine";
            source = codes "apk";
          }))
unfolding scan_root
scan_root-print r ss fs h k =
    let pkg_type = dpkg_type (distro_id_from_root r.os_release) in
    (
      ap
          (λ (ps : List Package).
            ok (record { packages = ps; os_family = pkg_type; source = codes "dpkg" }))
          (parse_dpkg_status-print_status pkg_type ss h),
      ap apk_result (parse_apk_installed-print_installed fs k),
    )
