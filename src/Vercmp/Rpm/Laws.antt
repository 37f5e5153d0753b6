-- ===== src/Vercmp/Rpm/Laws.antt =====
-- `compareRPM` as an order: by the epoch, then the version, then the release.
use mathlib.Core.Option
use bongsu.Prelude.{Ordering, ◌≡◌, ◌≢◌, false, some, List, arith}
use bongsu.Prelude.Order.{
  first_nonzero, opposite, IsTotalPreorder, on-IsTotalPreorder, then-IsTotalPreorder,
}
use bongsu.Text.{Bytes, is_empty}
use bongsu.Vercmp.Keyed.{flip-ByKey, chain-ByKey}
use bongsu.Vercmp.Rpm.{split_evr, compare_rpm}
use bongsu.Vercmp.Rpm.Refine.{rpmvercmp_lem}
use bongsu.Vercmp.Rpm.Tokens.{Token, tokens, compare_tokens, compare_tokens-IsTotalPreorder}

pub record RpmKey : Type 0 where
  pub epoch_key : List Token
  pub version_key : List Token
  pub release_key : List Token

abbrev pub rpm_key : Bytes → RpmKey
rpm_key s =
    let v = split_evr s in
    record {
      epoch_key = tokens v.epoch;
      version_key = tokens v.version;
      release_key = tokens v.release;
    }

abbrev pub compare_rpm_key : RpmKey → RpmKey → Ordering
compare_rpm_key k l = first_nonzero (compare_tokens k.epoch_key l.epoch_key) (
    first_nonzero (compare_tokens k.version_key l.version_key)
      (compare_tokens k.release_key l.release_key))

pub compare_rpm_key-IsTotalPreorder : IsTotalPreorder compare_rpm_key
compare_rpm_key-IsTotalPreorder =
    then-IsTotalPreorder
      (on-IsTotalPreorder (λ (k : RpmKey). k.epoch_key) compare_tokens-IsTotalPreorder)
      (then-IsTotalPreorder
        (on-IsTotalPreorder (λ (k : RpmKey). k.version_key) compare_tokens-IsTotalPreorder)
        (on-IsTotalPreorder (λ (k : RpmKey). k.release_key) compare_tokens-IsTotalPreorder))

-- `compareRPM` never fails on two versions that are not empty, and compares them by the tokens of
-- the epoch, then of the version, then of the release.
pub compare_rpm_lem :
    (a b : Bytes)
    → is_empty a ≡ false
    → is_empty b ≡ false
    → compare_rpm a b ≡ some (compare_rpm_key (rpm_key a) (rpm_key b))
unfolding compare_rpm
compare_rpm_lem a b x y =
    let va = split_evr a in
    let vb = split_evr b in
    ground (
      arith,
      rpmvercmp_lem va.epoch vb.epoch,
      rpmvercmp_lem va.version vb.version,
      rpmvercmp_lem va.release vb.release,
    )

-- Exchanging the arguments of `compareRPM` exchanges -1 and 1, whatever two versions that are not
-- empty it is given.
pub compare_rpm-flip :
    (a b : Bytes)
    → is_empty a ≡ false
    → is_empty b ≡ false
    → compare_rpm b a ≡ Option.map opposite (compare_rpm a b)
compare_rpm-flip a b x y =
    flip-ByKey compare_rpm compare_rpm_key rpm_key compare_rpm_key-IsTotalPreorder a b
      (compare_rpm_lem a b x y) (compare_rpm_lem b a y x)

-- `compareRPM` is transitive on versions that are not empty: where it finds `a` not above `b` and
-- `b` not above `c`, its result on `a` and `c` is the first of those two that is not 0.
pub compare_rpm-chain :
    (a b c : Bytes) {r s : Ordering}
    → is_empty a ≡ false
    → is_empty b ≡ false
    → is_empty c ≡ false
    → compare_rpm a b ≡ some r
    → compare_rpm b c ≡ some s
    → r ≢ Ordering.gt
    → s ≢ Ordering.gt
    → compare_rpm a c ≡ some (first_nonzero r s)
compare_rpm-chain a b c x y z =
    chain-ByKey compare_rpm compare_rpm_key rpm_key compare_rpm_key-IsTotalPreorder a b c
      (compare_rpm_lem a b x y) (compare_rpm_lem b c y z) (compare_rpm_lem a c x z)
