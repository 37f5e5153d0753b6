-- ===== src/Vercmp.antt =====
-- internal/server/vercmp/vercmp.go: `Compare` and the choice of the algorithm. The comparators of
-- the package are in the modules below.
pub mod Chars
pub mod Digits
pub mod Keyed
pub mod Deb
pub mod Rpm
pub mod Apk
pub mod Generic
pub mod Laws
mod Tests
use bongsu.Prelude.{Ordering, Bool, ◌||◌, Option, none, some, [], ◌∷◌, if◌then◌else◌}
use bongsu.Text.{Bytes, codes, is_empty, equal, trim_space, to_lower, one_of}
use Apk.{compare_alpine}
use Deb.{compare_debian}
use Generic.{compare_generic}
use Rpm.{compare_rpm}

-- The strings that `family` returns.
pub data Family : Type 0 where
  debian rhel alpine generic : Family

unfoldable pub family : Bytes → Family
unfolding trim_space to_lower one_of
family ecosystem =
    let name = to_lower (trim_space ecosystem) in
    if one_of name (codes "debian" ∷ codes "ubuntu" ∷ codes "deb" ∷ [])
    then debian
    else if one_of name (
        codes "rhel"
        ∷ codes "redhat"
        ∷ codes "centos"
        ∷ codes "rocky"
        ∷ codes "almalinux"
        ∷ codes "alma"
        ∷ codes "amazon"
        ∷ codes "oracle"
        ∷ codes "suse"
        ∷ codes "opensuse"
        ∷ codes "azurelinux"
        ∷ [])
    then rhel
    else if one_of name (codes "alpine" ∷ codes "apk" ∷ codes "wolfi" ∷ [])
    then alpine
    else generic

-- The switch of `Compare`.
unfoldable pub compare_by : Family → Bytes → Bytes → Option Ordering
compare_by debian a b = compare_debian a b
compare_by rhel a b = compare_rpm a b
compare_by alpine a b = compare_alpine a b
compare_by generic a b = compare_generic a b

-- From the trimmed strings on.
unfoldable pub compare_trimmed : Family → Bytes → Bytes → Option Ordering
compare_trimmed f a b =
    if is_empty a || is_empty b
    then none
    else if equal a b
    then some Ordering.eq
    else compare_by f a b

-- `Compare`; `none` is `ok == false`.
unfoldable pub compare : Bytes → Bytes → Bytes → Option Ordering
unfolding family compare_trimmed
compare ecosystem a b = compare_trimmed (family ecosystem) (trim_space a) (trim_space b)
