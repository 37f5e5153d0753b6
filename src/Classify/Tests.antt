-- ===== src/Classify/Tests.antt =====
-- The theorems about advisories at concrete products.
use bongsu.Prelude.{◌≡◌, refl, true, false, Option, some, List, [], ◌∷◌, any_of}
use bongsu.Text.{Bytes, codes}
use bongsu.Vercmp.{compare_by}
use bongsu.Vercmp.Chars.{is_digit}
use bongsu.Vercmp.Deb.{compare_debian, verrevcmp}
use bongsu.Vercmp.Digits.{compare_num_str, strip_leading_zeros, strcmp}
use bongsu.Vercmp.Generic.{compare_generic, parse_generic, all_digits, compare_parsed}
use bongsu.Classify.{AffectedProduct}
use bongsu.Classify.Candidate.{compatible_security_candidate}
use bongsu.Classify.Candidate.Match.{first_where, is_match}
use bongsu.Classify.Candidate.Sound.{compatible_security_candidate_lem}
use bongsu.Classify.Cpe.{cpe_version_affected}
use bongsu.Classify.Cpe.Bounds.{cpe_version_affected_lem}
use bongsu.Classify.Ecosystem.{normalize_ecosystem, package_category}
use bongsu.Classify.Fixed.{fixed_versions}
use bongsu.Classify.Range.{version_in_range}
use bongsu.Classify.Range.Intervals.{
  Interval, by_fix, by_last_affected, events_of, inside, version_in_range-events_of,
}

-- What a comparison of versions computes with.
opened : Unit {0}
unfolding compare_by compare_debian verrevcmp compare_generic parse_generic all_digits is_digit
    compare_parsed compare_num_str strip_leading_zeros strcmp
opened = tt

abbrev debian : Bytes
debian = codes "debian"

abbrev first_interval : Interval
first_interval = record { start = codes "0"; ending = by_fix; end = codes "1.2-1" }

abbrev second_interval : Interval
second_interval = record { start = codes "2.0"; ending = by_last_affected; end = codes "2.3" }

abbrev intervals : List Interval
intervals = first_interval ∷ second_interval ∷ []

version_in_range_runs :
    (version_in_range debian (codes "1.1") (events_of intervals) ≡ true)
    × (version_in_range debian (codes "1.2-1") (events_of intervals) ≡ false)
    × (version_in_range debian (codes "2.3") (events_of intervals) ≡ true)
    × (version_in_range debian (codes "2.3+b1") (events_of intervals) ≡ false)
unfolding opened version_in_range
version_in_range_runs = (refl, refl, refl, refl)

version_in_range-events_of_example :
    version_in_range debian (codes "2.1") (events_of intervals)
    ≡ any_of (inside debian (codes "2.1")) intervals
unfolding opened version_in_range
version_in_range-events_of_example = version_in_range-events_of debian (codes "2.1") intervals refl

abbrev openssl : AffectedProduct
openssl = record {
  name = codes "OpenSSL";
  ecosystem = codes "Debian:12";
  fixed = codes "3.0.11-1" ∷ codes " 3.0.11-1" ∷ codes "main" ∷ [];
  ranges = record { typ = codes "ECOSYSTEM"; events = events_of (first_interval ∷ []) } ∷ [];
  vendor = codes "openssl";
  product = codes "openssl";
  version = [];
  version_start_including = codes "1.0";
  version_start_excluding = [];
  version_end_including = [];
  version_end_excluding = codes "3.0.11";
}

fixed_versions_run : fixed_versions openssl ≡ codes "3.0.11-1" ∷ codes "1.2-1" ∷ []
unfolding fixed_versions
fixed_versions_run = refl

cpe_version_affected_example : cpe_version_affected (codes "3.0.9") openssl ≡ true
unfolding opened cpe_version_affected
cpe_version_affected_example = cpe_version_affected_lem (codes "3.0.9") openssl

abbrev read_openssl : Bytes → Option (List AffectedProduct)
read_openssl s = some (openssl ∷ [])

compatible_security_candidate_lem_example :
    compatible_security_candidate read_openssl
      (codes "openssl")
      (codes "deb")
      (codes "debian:12")
      (codes "1.1-2")
      []
      []
      (codes "[]")
    ≡ first_where
        (is_match
          (codes "openssl")
          (package_category (codes "deb") (codes "debian:12"))
          (normalize_ecosystem (codes "debian:12"))
          (codes "1.1-2")
          []
          (normalize_ecosystem []))
        (openssl ∷ [])
compatible_security_candidate_lem_example =
    compatible_security_candidate_lem read_openssl (codes "openssl") (codes "deb")
      (codes "debian:12") (codes "1.1-2") [] [] (codes "[]")

candidate_run :
    compatible_security_candidate read_openssl
      (codes "openssl")
      (codes "deb")
      (codes "debian:12")
      (codes "1.1-2")
      []
      []
      (codes "[]")
    ≡ some openssl
unfolding opened compatible_security_candidate
candidate_run = refl
