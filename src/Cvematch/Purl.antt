-- ===== src/Cvematch/Purl.antt =====
-- internal/server/cvematch/sbom.go: package URLs.
use bongsu.Prelude.{
  ℕ, suc, Bool, true, false, not, ◌&&◌, Option, some, List, [], ◌∷◌, ◌++◌, ◌==◌, if◌then◌else◌,
  any_of,
}
use bongsu.Text.{Bytes, codes, equal, is_empty, to_lower, contains, one_of}
use bongsu.Vercmp.Chars.{last_index_byte}
use bongsu.Scanner.Dpkg.{lookup}
use bongsu.Cvematch.{Package, Host}

abbrev pub pkg_type_to_purl : List (Bytes × Bytes)
pkg_type_to_purl =
    (codes "deb", codes "deb")
    ∷ (codes "rpm", codes "rpm")
    ∷ (codes "apk", codes "apk")
    ∷ (codes "python-pkg", codes "pypi")
    ∷ (codes "pip", codes "pypi")
    ∷ (codes "poetry", codes "pypi")
    ∷ (codes "node-pkg", codes "npm")
    ∷ (codes "npm", codes "npm")
    ∷ (codes "yarn", codes "npm")
    ∷ (codes "pnpm", codes "npm")
    ∷ (codes "golang", codes "golang")
    ∷ (codes "gobinary", codes "golang")
    ∷ (codes "jar", codes "maven")
    ∷ (codes "maven", codes "maven")
    ∷ (codes "rustbinary", codes "cargo")
    ∷ (codes "cargo", codes "cargo")
    ∷ (codes "composer", codes "composer")
    ∷ (codes "gem", codes "gem")
    ∷ (codes "nuget", codes "nuget")
    ∷ (codes "cocoapods", codes "cocoapods")
    ∷ (codes "swift", codes "swift")
    ∷ (codes "dotnet", codes "nuget")
    ∷ []

-- No value of the map is empty.
unfoldable pub purl_type : Bytes → Bytes
unfolding lookup
purl_type pkg_type =
    let t = lookup pkg_type pkg_type_to_purl in if is_empty t then codes "generic" else t

unfoldable pub contains_any : Bytes → List Bytes → Bool
unfolding contains
contains_any s subs = any_of (contains s) subs

unfoldable pub infer_os_pkg_type : Bytes → Bytes
unfolding contains_any to_lower
infer_os_pkg_type os_name =
    let s = to_lower os_name in
    if contains_any s (codes "ubuntu" ∷ codes "debian" ∷ [])
    then codes "deb"
    else if contains_any s (
        codes "centos"
        ∷ codes "red hat"
        ∷ codes "rhel"
        ∷ codes "fedora"
        ∷ codes "rocky"
        ∷ codes "almalinux"
        ∷ codes "amazon"
        ∷ [])
    then codes "rpm"
    else codes "deb"

-- `strings.Replace(name, ":", "/", 1)`.
unfoldable pub colon_to_slash : Bytes → Bytes
colon_to_slash [] = []
colon_to_slash (c ∷ s) = let rest = colon_to_slash s in if c == b':' then b'/' ∷ s else c ∷ rest

-- `idx > 0`.
abbrev pub is_behind_start : Option ℕ → Bool
is_behind_start (some (suc i)) = true
is_behind_start _ = false

unfoldable pub purl_name : Bytes → Bytes → Bytes
unfolding last_index_byte colon_to_slash equal contains
purl_name t name =
    if equal t (codes "maven")
    then if is_behind_start (last_index_byte name b':') then colon_to_slash name else name
    else if equal t (codes "golang")
    then if not (contains name (codes "/")) then codes "golang.org/x/" ++ name else name
    else name

unfoldable pub build_purl : Package → Host → Bytes
unfolding purl_type infer_os_pkg_type purl_name equal one_of
build_purl pkg host =
    if not (is_empty pkg.purl)
    then pkg.purl
    else let pt =
        if equal pkg.pkg_type (codes "os") then infer_os_pkg_type host.os_name else pkg.pkg_type in
      let t = purl_type pt in
      let p = codes "pkg:" ++ t ++ codes "/" ++ purl_name t pkg.name ++ codes "@" ++ pkg.version in
      if not (is_empty pkg.arch) && one_of t (codes "deb" ∷ codes "rpm" ∷ [])
      then p ++ codes "?arch=" ++ pkg.arch
      else p
