-- ===== src/Scanner/Rpm.antt =====
-- internal/agent/scanner/rpm.go: what `rpm -qa` prints.
pub mod SourceName
use bongsu.Prelude.{
  ℕ, zero, suc, ◌-◌, Bool, true, false, not, ◌&&◌, ◌||◌, Option, none, some, List, [], ◌∷◌, ◌++◌,
  if◌then◌else◌, take, length,
}
use bongsu.Text.{Bytes, codes, equal, is_empty, trim_space, split_on, has_suffix}
use bongsu.Vercmp.Chars.{last_index_byte}
use bongsu.Scanner.{Package}
use bongsu.Scanner.Ecosystem.{ecosystem_for_type, purl_for_package}

-- `strings.TrimSuffix(s, suffix)`.
unfoldable pub trim_suffix : Bytes → Bytes → Bytes
unfolding has_suffix
trim_suffix s suffix = if has_suffix s suffix then take (length s - length suffix) s else s

-- `strings.LastIndex(src, "-")` is positive.
abbrev pub cut_at : Bytes → Option ℕ → Option Bytes
cut_at src (some (suc i)) = some (take (suc i) src)
cut_at src _ = none

abbrev pub cut_dash : Bytes → Option Bytes
cut_dash src = cut_at src (last_index_byte src b'-')

abbrev pub or_uncut : Bytes → Option Bytes → Bytes
or_uncut src none = src
or_uncut src (some cut) = cut

-- The release is cut off, and then the version.
abbrev pub cut_again : Bytes → Option Bytes → Bytes
cut_again src none = src
cut_again src (some cut) = or_uncut cut (cut_dash cut)

abbrev pub cut_tail : Bytes → Bytes
cut_tail src = cut_again src (cut_dash src)

unfoldable pub rpm_source_name : Bytes → Bytes
unfolding trim_suffix last_index_byte
rpm_source_name src = cut_tail (trim_suffix src (codes ".src.rpm"))

abbrev pub with_epoch : Bytes → Bytes → Bytes
with_epoch epoch version =
    if is_empty epoch || equal epoch (codes "0") || equal epoch (codes "(none)")
    then version
    else epoch ++ b':' ∷ version

abbrev pub source_of : List Bytes → Bytes
source_of [] = []
source_of (f ∷ fs) = rpm_source_name (trim_space f)

abbrev pub package_of : Bytes → Bytes → Bytes → Bytes → Package
package_of name version arch src_name = record {
  name = name;
  version = version;
  arch = arch;
  pkg_type = codes "rhel";
  ecosystem = ecosystem_for_type (codes "rhel");
  src_name = src_name;
  purl = purl_for_package (codes "rhel") name version arch;
  source = codes "native-rhel";
  file_path = [];
}

-- The fields of a line, and what the loop appends for them.
abbrev pub read_fields : List Bytes → List Package
read_fields (f0 ∷ f1 ∷ f2 ∷ f3 ∷ fs) =
    let name = trim_space f0 in
    let version = trim_space f2 in
    if is_empty name || is_empty version
    then []
    else package_of name (with_epoch (trim_space f1) version) (trim_space f3) (source_of fs) ∷ []
read_fields _ = []

unfoldable pub read_lines : List Bytes → List Package
unfolding split_on trim_space equal rpm_source_name ecosystem_for_type purl_for_package
read_lines [] = []
read_lines (line ∷ lines) = read_fields (split_on 9 line) ++ read_lines lines

unfoldable pub parse_rpm_query : Bytes → List Package
unfolding read_lines split_on
parse_rpm_query out = read_lines (split_on 10 out)
