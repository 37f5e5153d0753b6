-- ===== src/Vercmp/Deb/Laws.antt =====
-- `compareDebian` as an order: by the epoch, then the upstream version, then the revision.
use mathlib.Core.Option
use bongsu.Prelude.{
  suc, Ordering, ◌≡◌, ◌≢◌, refl, true, false, some, List, arith, take, all_of-take, all_of-drop,
  Option-cases, inl, inr,
}
use bongsu.Prelude.Int.{ℤ, compare_ℤ, compare_ℤ-IsTotalPreorder, eq_ℤ-compare_ℤ}
use bongsu.Prelude.Order.{
  first_nonzero, opposite, IsTotalPreorder, on-IsTotalPreorder, then-IsTotalPreorder,
}
use bongsu.Text.{Bytes, is_empty}
use bongsu.Vercmp.Chars.{index_byte, last_index_byte}
use bongsu.Vercmp.Deb.{atoi, split_epoch, split_revision, split_debian_version, compare_debian}
use bongsu.Vercmp.Deb.Loops.{has_no_nul}
use bongsu.Vercmp.Deb.Parts.{Part, parts, compare_parts, compare_parts-IsTotalPreorder}
use bongsu.Vercmp.Deb.Refine.{verrevcmp_lem}
use bongsu.Vercmp.Keyed.{flip-ByKey, chain-ByKey}

pub record DebianKey : Type 0 where
  pub epoch_key : ℤ
  pub upstream_key : List Part
  pub revision_key : List Part

abbrev pub debian_key : Bytes → DebianKey
debian_key v =
    let d = split_debian_version v in
    record { epoch_key = d.epoch; upstream_key = parts d.upstream; revision_key = parts d.revision }

abbrev pub compare_debian_key : DebianKey → DebianKey → Ordering
compare_debian_key k l = first_nonzero (compare_ℤ k.epoch_key l.epoch_key) (
    first_nonzero (compare_parts k.upstream_key l.upstream_key)
      (compare_parts k.revision_key l.revision_key))

pub compare_debian_key-IsTotalPreorder : IsTotalPreorder compare_debian_key
compare_debian_key-IsTotalPreorder =
    then-IsTotalPreorder
      (on-IsTotalPreorder (λ (k : DebianKey). k.epoch_key) compare_ℤ-IsTotalPreorder)
      (then-IsTotalPreorder
        (on-IsTotalPreorder (λ (k : DebianKey). k.upstream_key) compare_parts-IsTotalPreorder)
        (on-IsTotalPreorder (λ (k : DebianKey). k.revision_key) compare_parts-IsTotalPreorder))

split_epoch-has_no_nul : (v : Bytes) → has_no_nul v ≡ true → has_no_nul (split_epoch v).1 ≡ true
unfolding split_epoch
split_epoch-has_no_nul v h = elim (Option-cases (index_byte v b':')) [
  | inl e ↦ rw (e, split_epoch) h
  | inr (i, e) ↦
      rw (e, split_epoch)
        (elim (Option-cases (atoi (take i v))) [
          | inl bad ↦ rw (bad, split_epoch) h
          | inr (n, good) ↦ rw (good, split_epoch) (all_of-drop _ (suc i) v h)
        ])
]

split_revision-has_no_nul :
    (e : ℤ) (v : Bytes)
    → has_no_nul v ≡ true
    → (has_no_nul (split_revision e v).upstream ≡ true)
      × (has_no_nul (split_revision e v).revision ≡ true)
unfolding split_revision
split_revision-has_no_nul e v h = elim (Option-cases (last_index_byte v b'-')) [
  | inl f ↦ rw (f, split_revision) (h, refl)
  | inr (i, f) ↦ rw (f, split_revision) (all_of-take _ i v h, all_of-drop _ (suc i) v h)
]

split_debian_version-has_no_nul :
    (v : Bytes)
    → has_no_nul v ≡ true
    → (has_no_nul (split_debian_version v).upstream ≡ true)
      × (has_no_nul (split_debian_version v).revision ≡ true)
unfolding split_debian_version
split_debian_version-has_no_nul v h =
    split_revision-has_no_nul (split_epoch v).0 (split_epoch v).1 (split_epoch-has_no_nul v h)

-- `compareDebian` never fails on two versions that are not empty and without byte 0, and compares
-- them by the number of the epoch, then by the parts of the upstream version, then by those of
-- the revision.
pub compare_debian_lem :
    (a b : Bytes)
    → is_empty a ≡ false
    → is_empty b ≡ false
    → has_no_nul a ≡ true
    → has_no_nul b ≡ true
    → compare_debian a b ≡ some (compare_debian_key (debian_key a) (debian_key b))
unfolding compare_debian
compare_debian_lem a b x y p q =
    let ha = split_debian_version-has_no_nul a p in
    let hb = split_debian_version-has_no_nul b q in
    ground (
      arith,
      verrevcmp_lem (split_debian_version a).upstream (split_debian_version b).upstream ha.0 hb.0,
      verrevcmp_lem (split_debian_version a).revision (split_debian_version b).revision ha.1 hb.1,
      eq_ℤ-compare_ℤ (split_debian_version a).epoch (split_debian_version b).epoch,
    )

module _ (a b : Bytes) (x : is_empty a ≡ false) (y : is_empty b ≡ false) (p : has_no_nul a ≡ true)
    (q : has_no_nul b ≡ true) where
  -- Exchanging the arguments of `compareDebian` exchanges -1 and 1.
  pub compare_debian-flip : compare_debian b a ≡ Option.map opposite (compare_debian a b)
  compare_debian-flip =
      flip-ByKey compare_debian compare_debian_key debian_key compare_debian_key-IsTotalPreorder a b
        (compare_debian_lem a b x y p q) (compare_debian_lem b a y x q p)

  -- `compareDebian` is transitive: through `b`, the first result that is not 0 decides.
  pub compare_debian-chain :
      (c : Bytes) {r s : Ordering}
      → is_empty c ≡ false
      → has_no_nul c ≡ true
      → compare_debian a b ≡ some r
      → compare_debian b c ≡ some s
      → r ≢ Ordering.gt
      → s ≢ Ordering.gt
      → compare_debian a c ≡ some (first_nonzero r s)
  compare_debian-chain c z h =
      chain-ByKey compare_debian compare_debian_key debian_key compare_debian_key-IsTotalPreorder a
        b c (compare_debian_lem a b x y p q) (compare_debian_lem b c y z q h)
        (compare_debian_lem a c x z p h)
