-- ===== src/Cvematch/CycloneDx/Refs.antt =====
-- The references of a CycloneDX document.
use bongsu.Prelude.{
  ℕ, suc, ◌<◌, ◌≤◌, ◌≡◌, refl, sym, ap, ◌∙◌, true, false, not, Option, none, some, List, [], ◌∷◌,
  map, arith, ◌==◌, if◌then◌else◌, Bool-cases, inl, inr,
}
use bongsu.Prelude.Sort.{filter}
use bongsu.Text.{Bytes, codes, equal, equal_iff, equal_self, split_on}
use bongsu.Text.Pieces.{lacks, lacks-append, split_on-lacks, split_on-append}
use bongsu.Text.Decimal.{decimal, decimal_injective, lacks-decimal}
use bongsu.Text.Distinct.{lacks_name, all_distinct}
use bongsu.Cvematch.{Package, Host, is_nameless}
use bongsu.Cvematch.Sbom.{Digests, Counts, count_of, counted, numbered, unique_bom_ref}
use bongsu.Cvematch.CycloneDx.{
  CycloneDx, CdxComponent, cyclone_dx_package_identity, base_ref, components_of, refs_of, leaf,
  made, generate_cyclone_dx,
}

abbrev number_part : ℕ → List Bytes
number_part n = if n == 1 then [] else decimal n ∷ []

number_part_injective : (n m : ℕ) → number_part n ≡ number_part m → n ≡ m
number_part_injective n m e = elim (Bool-cases (n == 1)) [
  | inl p ↦ elim (Bool-cases (m == 1)) [ inl q ↦ ground (arith, p, q) | inr q ↦ absurd (cc) ]
  | inr p ↦ elim (Bool-cases (m == 1)) [ inl q ↦ absurd (cc) | inr q ↦ decimal_injective n m (cc) ]
]

-- The cut at the dash gives the base and the number back.
split_on-numbered :
    (b : Bytes) (n : ℕ) → lacks b'-' b ≡ true → split_on b'-' (numbered b n) ≡ b ∷ number_part n
unfolding numbered
split_on-numbered b n h = elim (Bool-cases (n == 1)) [
  | inl one ↦ rw one (split_on-lacks b'-' b h)
  | inr more ↦ rw more (
      split_on-append b'-' b (decimal n) h
      ∙ ap (◌∷◌ b) (split_on-lacks b'-' (decimal n) (lacks-decimal b'-' n (omega arith))))
]

numbered_injective :
    (b c : Bytes) (n m : ℕ)
    → lacks b'-' b ≡ true
    → lacks b'-' c ≡ true
    → numbered b n ≡ numbered c m
    → (b ≡ c) × (n ≡ m)
numbered_injective b c n m h k e =
    let cut = sym (split_on-numbered b n h) ∙ ap (split_on b'-') e ∙ split_on-numbered c m k in
    (cc, number_part_injective n m (cc))

-- A number that is higher gives another name.
numbered_fresh :
    (b c : Bytes) (n m : ℕ)
    → lacks b'-' b ≡ true
    → lacks b'-' c ≡ true
    → (b ≡ c → n < m)
    → equal (numbered c m) (numbered b n) ≡ false
numbered_fresh b c n m h k l = elim (Bool-cases (equal (numbered c m) (numbered b n))) [
  | inr other ↦ other
  | inl same ↦
      let (e, i) =
        numbered_injective b c n m h k (sym ((equal_iff (numbered c m) (numbered b n)).0 same)) in
      absurd (omega (arith, l e, i))
]

count_of-counted : (b c : Bytes) (seen : Counts) → count_of b seen ≤ count_of b (counted c seen)
unfolding count_of
count_of-counted b c seen = elim (Bool-cases (equal c b)) [
  | inl same ↦ rw (same, (equal_iff c b).0 same) (omega arith)
  | inr other ↦ rw other (omega arith)
]

count_of_same : (b : Bytes) (seen : Counts) → count_of b (counted b seen) ≡ suc (count_of b seen)
unfolding count_of
count_of_same b seen = rw (equal_self b) refl

module _ (d : Digests) (host : Host) (hex : (s : Bytes) → lacks b'-' (d.sha1_hex s) ≡ true) where
  lacks-base_ref : (pkg : Package) → lacks b'-' (base_ref d pkg) ≡ true
  lacks-base_ref pkg =
      lacks-append b'-' (codes "bongsu:pkg:") (d.sha1_hex (cyclone_dx_package_identity pkg)) refl
        (hex (cyclone_dx_package_identity pkg))

  refs_of-nameless :
      (seen : Counts) (pkg : Package) (pkgs : List Package)
      → is_nameless pkg ≡ true
      → components_of d host seen (pkg ∷ pkgs) ≡ components_of d host seen pkgs
  unfolding components_of
  refs_of-nameless seen pkg pkgs h = rw (components_of, h) refl

  refs_of-named :
      (seen : Counts) (pkg : Package) (pkgs : List Package)
      → is_nameless pkg ≡ false
      → let b = base_ref d pkg in
        refs_of (components_of d host seen (pkg ∷ pkgs))
        ≡ numbered b (suc (count_of b seen)) ∷ refs_of (components_of d host (counted b seen) pkgs)
  unfolding components_of unique_bom_ref
  refs_of-named seen pkg pkgs h =
      let b = base_ref d pkg in
      rw (components_of, h)
        (ap (λ n. numbered b n ∷ refs_of (components_of d host (counted b seen) pkgs))
          (count_of_same b seen))

  -- A name that was given before is not given again.
  lacks_name-components_of :
      (b : Bytes) (n : ℕ) (seen : Counts) (pkgs : List Package)
      → lacks b'-' b ≡ true
      → n ≤ count_of b seen
      → lacks_name (numbered b n) (refs_of (components_of d host seen pkgs)) ≡ true
  unfolding components_of
  lacks_name-components_of b n seen [] h l = refl
  lacks_name-components_of b n seen (pkg ∷ pkgs) h l = elim (Bool-cases (is_nameless pkg)) [
    | inl skipped ↦
        rw (refs_of-nameless seen pkg pkgs skipped) (lacks_name-components_of b n seen pkgs h l)
    | inr listed ↦
        let c = base_ref d pkg in
        let fresh =
          numbered_fresh b c n (suc (count_of c seen)) h (lacks-base_ref pkg)
            (λ e. omega (arith, l, ap (λ z. count_of z seen) e)) in
        let rest =
          lacks_name-components_of b n (counted c seen) pkgs h
            (omega (arith, l, count_of-counted b c seen)) in
        rw (refs_of-named seen pkg pkgs listed, fresh, rest) refl
  ]

  all_distinct-components_of :
      (seen : Counts) (pkgs : List Package)
      → all_distinct (refs_of (components_of d host seen pkgs)) ≡ true
  unfolding components_of
  all_distinct-components_of seen [] = refl
  all_distinct-components_of seen (pkg ∷ pkgs) = elim (Bool-cases (is_nameless pkg)) [
    | inl skipped ↦
        rw (refs_of-nameless seen pkg pkgs skipped) (all_distinct-components_of seen pkgs)
    | inr listed ↦
        let c = base_ref d pkg in
        let first =
          lacks_name-components_of c (suc (count_of c seen)) (counted c seen) pkgs
            (lacks-base_ref pkg) (omega (arith, count_of_same c seen)) in
        rw
          (
            refs_of-named seen pkg pkgs listed,
            first,
            all_distinct-components_of (counted c seen) pkgs,
          )
          refl
  ]

-- The names of the components.
abbrev pub names_of : List CdxComponent → List Bytes
names_of = map (λ (c : CdxComponent). c.name)

names_of-components_of :
    (d : Digests) (host : Host) (seen : Counts) (pkgs : List Package)
    → names_of (components_of d host seen pkgs)
      ≡ map (λ (p : Package). p.name) (filter (λ p. not (is_nameless p)) pkgs)
unfolding components_of filter
names_of-components_of d host seen [] = refl
names_of-components_of d host seen (pkg ∷ pkgs) = elim (Bool-cases (is_nameless pkg)) [
  | inl skipped ↦ rw (skipped, components_of) (names_of-components_of d host seen pkgs)
  | inr listed ↦
      rw (listed, components_of)
        (ap (◌∷◌ pkg.name) (names_of-components_of d host (counted (base_ref d pkg) seen) pkgs))
]

-- The packages that have a name and a version.
abbrev pub named : List Package → List Package
named = filter (λ (p : Package). not (is_nameless p))

-- There is a component for each named package, and all references differ.
abbrev pub IsSbomOf : List Package → Option CycloneDx → Type 0
IsSbomOf pkgs none = named pkgs ≡ []
IsSbomOf pkgs (some doc) =
    (all_distinct (refs_of doc.components) ≡ true)
    × (names_of doc.components ≡ map (λ (p : Package). p.name) (named pkgs))
    × (doc.dependencies
        ≡ record { ref = doc.component.bom_ref; depends_on = refs_of doc.components }
          ∷ map leaf (refs_of doc.components))

made-IsSbomOf :
    (d : Digests) (now : Bytes) (pkgs : List Package) (host : Host) (cs : List CdxComponent)
    → all_distinct (refs_of cs) ≡ true
    → names_of cs ≡ map (λ (p : Package). p.name) (named pkgs)
    → IsSbomOf pkgs (made d now host pkgs cs)
made-IsSbomOf d now pkgs host [] h k = no_names (named pkgs) (sym k)
  where
    no_names : (ps : List Package) → map (λ (p : Package). p.name) ps ≡ [] → ps ≡ []
    no_names [] e = refl
    no_names (p ∷ ps) e = absurd (cc)
made-IsSbomOf d now pkgs host (c ∷ cs) h k = (h, k, refl)

-- When the hexadecimal digests hold no dash, `GenerateCycloneDX` fails only for a list with no
-- package that has a name and a version, and otherwise makes a document whose components are
-- these packages by name and in order, with references that all differ, and whose dependencies
-- list these references under the one of the host and then each alone.
pub generate_cyclone_dx-IsSbomOf :
    (d : Digests) (now : Bytes) (pkgs : List Package) (host : Host)
    → ((s : Bytes) → lacks b'-' (d.sha1_hex s) ≡ true)
    → IsSbomOf pkgs (generate_cyclone_dx d now pkgs host)
unfolding generate_cyclone_dx
generate_cyclone_dx-IsSbomOf d now pkgs host hex =
    made-IsSbomOf d now pkgs host (components_of d host [] pkgs)
      (all_distinct-components_of d host hex [] pkgs) (names_of-components_of d host [] pkgs)
