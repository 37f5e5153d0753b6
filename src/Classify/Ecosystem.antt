-- ===== src/Classify/Ecosystem.antt =====
-- internal/server/db/classify.go: the names of ecosystems and the category of a package.
use bongsu.Prelude.{Bool, none, some, [], ◌∷◌, if◌then◌else◌, take}
use bongsu.Text.{Bytes, codes, trim_space, to_lower, one_of}
use bongsu.Vercmp.Chars.{index_byte}

-- The text in front of the first ':', trimmed, where there is one.
unfoldable pub family_segment : Bytes → Bytes
unfolding index_byte trim_space
family_segment eco = elim (index_byte eco b':') [ none ↦ eco | some i ↦ trim_space (take i eco) ]

-- `isOSEcosystem`.
unfoldable pub is_os_ecosystem : Bytes → Bool
unfolding family_segment to_lower one_of
is_os_ecosystem ecosystem = one_of (family_segment (to_lower (trim_space ecosystem))) (
    codes "debian"
    ∷ codes "ubuntu"
    ∷ codes "alpine"
    ∷ codes "red hat"
    ∷ codes "redhat"
    ∷ codes "rhel"
    ∷ codes "centos"
    ∷ codes "rocky"
    ∷ codes "alma"
    ∷ codes "amazon"
    ∷ codes "suse"
    ∷ codes "opensuse"
    ∷ codes "almalinux"
    ∷ codes "amazon linux"
    ∷ codes "wolfi"
    ∷ codes "chainguard"
    ∷ codes "rocky linux"
    ∷ codes "oracle linux"
    ∷ codes "azure linux"
    ∷ codes "azurelinux"
    ∷ codes "cbl-mariner"
    ∷ codes "openeuler"
    ∷ codes "mageia"
    ∷ codes "android"
    ∷ [])

-- The names in the second switch of `packageCategory`.
abbrev is_os_type : Bytes → Bool
is_os_type pt = one_of pt (
    codes "debian"
    ∷ codes "ubuntu"
    ∷ codes "deb"
    ∷ codes "alpine"
    ∷ codes "apk"
    ∷ codes "redhat"
    ∷ codes "centos"
    ∷ codes "rocky"
    ∷ codes "alma"
    ∷ codes "amazon"
    ∷ codes "rpm"
    ∷ codes "suse"
    ∷ codes "wolfi"
    ∷ [])

abbrev is_library_type : Bytes → Bool
is_library_type pt = one_of pt (
    codes "python-pkg"
    ∷ codes "pip"
    ∷ codes "poetry"
    ∷ codes "node-pkg"
    ∷ codes "npm"
    ∷ codes "yarn"
    ∷ codes "pnpm"
    ∷ codes "gomod"
    ∷ codes "go"
    ∷ codes "gobinary"
    ∷ codes "golang"
    ∷ codes "jar"
    ∷ codes "maven"
    ∷ codes "cargo"
    ∷ codes "rustbinary"
    ∷ codes "composer"
    ∷ codes "gem"
    ∷ codes "nuget"
    ∷ [])

abbrev is_library_ecosystem : Bytes → Bool
is_library_ecosystem eco = one_of eco (
    codes "pypi"
    ∷ codes "npm"
    ∷ codes "go"
    ∷ codes "maven"
    ∷ codes "crates.io"
    ∷ codes "nuget"
    ∷ codes "rubygems"
    ∷ codes "packagist"
    ∷ codes "hex"
    ∷ codes "pub"
    ∷ [])

unfoldable pub package_category : Bytes → Bytes → Bytes
unfolding is_os_ecosystem
package_category pkg_type ecosystem =
    let eco = to_lower (trim_space ecosystem) in
    let pt = to_lower pkg_type in
    if is_os_ecosystem eco
    then codes "os-package"
    else if is_library_ecosystem eco
    then codes "code-library"
    else if is_os_type pt
    then codes "os-package"
    else if is_library_type pt
    then codes "code-library"
    else []

-- The second switch of `normalizeEcosystem`.
abbrev normalize_family : Bytes → Bytes → Bytes
normalize_family eco family =
    if one_of family (codes "debian" ∷ codes "deb" ∷ [])
    then codes "debian"
    else if one_of family (codes "ubuntu" ∷ [])
    then codes "ubuntu"
    else if one_of family (codes "alpine" ∷ codes "apk" ∷ [])
    then codes "alpine"
    else if one_of family (
        codes "redhat"
        ∷ codes "red hat"
        ∷ codes "red hat enterprise linux"
        ∷ codes "rhel"
        ∷ codes "centos"
        ∷ codes "rocky"
        ∷ codes "rocky linux"
        ∷ codes "almalinux"
        ∷ codes "alma"
        ∷ codes "amazon"
        ∷ codes "amazon linux"
        ∷ codes "oracle linux"
        ∷ codes "rpm"
        ∷ [])
    then codes "rhel"
    else if one_of family (codes "suse" ∷ codes "opensuse" ∷ [])
    then codes "suse"
    else if one_of family (codes "wolfi" ∷ codes "chainguard" ∷ [])
    then codes "wolfi"
    else if one_of family (codes "azure linux" ∷ codes "azurelinux" ∷ codes "cbl-mariner" ∷ [])
    then codes "azurelinux"
    else eco

-- `normalizeEcosystem`.
unfoldable pub normalize_ecosystem : Bytes → Bytes
unfolding family_segment to_lower one_of
normalize_ecosystem ecosystem =
    let eco = to_lower (trim_space ecosystem) in
    if one_of eco (codes "python" ∷ codes "python-pkg" ∷ codes "pip" ∷ codes "poetry" ∷ [])
    then codes "pypi"
    else if one_of eco
        (codes "node" ∷ codes "node-pkg" ∷ codes "javascript" ∷ codes "yarn" ∷ codes "pnpm" ∷ [])
    then codes "npm"
    else if one_of eco (codes "golang" ∷ codes "gomod" ∷ codes "gobinary" ∷ [])
    then codes "go"
    else if one_of eco (codes "ruby" ∷ codes "gem" ∷ [])
    then codes "rubygems"
    else if one_of eco (codes "rust" ∷ codes "cargo" ∷ codes "rustbinary" ∷ [])
    then codes "crates.io"
    else if one_of eco (codes "jar" ∷ [])
    then codes "maven"
    else if one_of eco (codes "composer" ∷ [])
    then codes "packagist"
    else normalize_family eco (family_segment eco)
