-- ===== src/Scanner/Ecosystem.antt =====
-- internal/agent/scanner/ecosystem.go: the ecosystem of a package type, and package URLs.
use mathlib.Core.List.{reverse}
use bongsu.Prelude.{
  ℕ, ◌==◌, Option, none, some, drop, drop_while, Bool, not, ◌&&◌, ◌||◌, List, [], ◌∷◌, ◌++◌,
  if◌then◌else◌,
}
use bongsu.Text.{Bytes, codes, equal, is_empty, one_of, to_lower, trim_space, has_prefix, split_on}

unfoldable pub ecosystem_for_type : Bytes → Bytes
unfolding equal one_of to_lower
ecosystem_for_type pkg_type =
    let t = to_lower pkg_type in
    if equal t (codes "ubuntu")
    then codes "Ubuntu"
    else if one_of t (codes "debian" ∷ codes "deb" ∷ [])
    then codes "Debian"
    else if one_of t (codes "alpine" ∷ codes "apk" ∷ [])
    then codes "Alpine"
    else if one_of t (
        codes "redhat"
        ∷ codes "centos"
        ∷ codes "rocky"
        ∷ codes "alma"
        ∷ codes "almalinux"
        ∷ codes "amazon"
        ∷ codes "oracle"
        ∷ codes "rpm"
        ∷ codes "rhel"
        ∷ [])
    then codes "RHEL"
    else if one_of t (codes "python-pkg" ∷ codes "pip" ∷ codes "poetry" ∷ codes "pypi" ∷ [])
    then codes "PyPI"
    else if one_of t (codes "node-pkg" ∷ codes "npm" ∷ codes "yarn" ∷ codes "pnpm" ∷ [])
    then codes "npm"
    else if one_of t (codes "gomod" ∷ codes "go" ∷ codes "gobinary" ∷ codes "golang" ∷ [])
    then codes "Go"
    else if one_of t (codes "jar" ∷ codes "maven" ∷ [])
    then codes "Maven"
    else if one_of t (codes "cargo" ∷ codes "rustbinary" ∷ [])
    then codes "crates.io"
    else if equal t (codes "composer")
    then codes "Packagist"
    else if equal t (codes "gem")
    then codes "RubyGems"
    else if equal t (codes "nuget")
    then codes "NuGet"
    else []

unfoldable pub purl_type : Bytes → Bytes
unfolding equal one_of
purl_type ecosystem =
    if one_of ecosystem (codes "Debian" ∷ codes "Ubuntu" ∷ [])
    then codes "deb"
    else if equal ecosystem (codes "Alpine")
    then codes "apk"
    else if equal ecosystem (codes "RHEL")
    then codes "rpm"
    else if equal ecosystem (codes "PyPI")
    then codes "pypi"
    else if equal ecosystem (codes "npm")
    then codes "npm"
    else if equal ecosystem (codes "Go")
    then codes "golang"
    else if equal ecosystem (codes "Maven")
    then codes "maven"
    else if equal ecosystem (codes "crates.io")
    then codes "cargo"
    else if equal ecosystem (codes "Packagist")
    then codes "composer"
    else if equal ecosystem (codes "RubyGems")
    then codes "gem"
    else if equal ecosystem (codes "NuGet")
    then codes "nuget"
    else codes "generic"

unfoldable pub purl_for_package : Bytes → Bytes → Bytes → Bytes → Bytes
unfolding ecosystem_for_type purl_type one_of
purl_for_package pkg_type name version arch =
    if is_empty name || is_empty version
    then []
    else let t = purl_type (ecosystem_for_type pkg_type) in
      let p = codes "pkg:" ++ t ++ codes "/" ++ name ++ codes "@" ++ version in
      if not (is_empty arch) && one_of t (codes "deb" ∷ codes "rpm" ∷ codes "apk" ∷ [])
      then p ++ codes "?arch=" ++ arch
      else p

abbrev pub is_quote : ℕ → Bool
is_quote c = c == 34 || c == 39

-- ``strings.Trim(s, `"'`)``.
unfoldable pub trim_quotes : Bytes → Bytes
unfolding drop_while
trim_quotes s = reverse (drop_while is_quote (reverse (drop_while is_quote s)))

-- The value of the first line, trimmed, that begins with `ID=`.
unfoldable pub distro_id_in : List Bytes → Bytes
unfolding trim_space has_prefix trim_quotes to_lower
distro_id_in [] = []
distro_id_in (l ∷ ls) =
    let rest = distro_id_in ls in
    if has_prefix (trim_space l) (codes "ID=")
    then to_lower (trim_quotes (drop 3 (trim_space l)))
    else rest

-- `os_release` is the content of etc/os-release, or `none` when it cannot be read.
unfoldable pub distro_id_from_root : Option Bytes → Bytes
unfolding distro_id_in split_on
distro_id_from_root none = []
distro_id_from_root (some os_release) = distro_id_in (split_on 10 os_release)
