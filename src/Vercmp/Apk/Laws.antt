-- ===== src/Vercmp/Apk/Laws.antt =====
-- `compareAlpine` as an order on the valid versions whose numbers stay below 2 ^ 63.
use mathlib.Core.Option
use bongsu.Prelude.{
  ℕ, zero, suc, ◌^◌, ◌<◌, Ordering, ◌≡◌, ◌≢◌, refl, Bool, true, false, Option, none, some, List,
  arith, ltb, ltb→lt, and_split, all_of,
}
use bongsu.Prelude.Order.{first_nonzero, opposite}
use bongsu.Text.{Bytes, is_empty}
use bongsu.Vercmp.Apk.{bound, apk_compare_loop, apk_valid, apk_compare, compare_alpine}
use bongsu.Vercmp.Apk.Scanner.{ApkToken, ApkScanner, new_apk_scanner}
use bongsu.Vercmp.Apk.Order.{
  compare_apk_token, compare_apk_tokens, compare_apk_tokens-IsTotalPreorder, found,
  compare_round_lem, compare_round-end_left, compare_round-end_right, compare_round-end_both,
}
use bongsu.Vercmp.Apk.Scan.{Scans, stop, more, next-lowers, apk_tokens, apk_valid-Scans}
use bongsu.Vercmp.Keyed.{flip-ByKey, chain-ByKey}

-- Every value of the tokens is one that a 64-bit integer holds as it is.
abbrev pub has_small_values : List ApkToken → Bool
has_small_values = all_of (λ t. ltb t.value (2 ^ 63))

abbrev after : Option Ordering → Option Ordering → Option Ordering
after round rest = elim round [ some c ↦ some c | none ↦ rest ]

after-found :
    (r c : Ordering) (rest : Option Ordering)
    → (r ≡ Ordering.eq → rest ≡ some c)
    → after (found r) rest ≡ some (first_nonzero r c)
after-found Ordering.eq c rest h = h refl
after-found _ c rest h = refl

-- More fuel than the bound gives the comparison of the tokens.
pub apk_compare_loop_lem :
    (fuel : ℕ) {sa sb : ApkScanner} {ts us : List ApkToken}
    → Scans sa ts
    → Scans sb us
    → has_small_values ts ≡ true
    → has_small_values us ≡ true
    → bound sa < fuel
    → apk_compare_loop fuel sa sb ≡ some (compare_apk_tokens ts us)
unfolding apk_compare_loop
apk_compare_loop_lem zero a b h k l = absurd (omega arith)
apk_compare_loop_lem (suc fuel) (stop {t = t} e x) (stop {t = u} f y) h k l =
    rw (e, f, apk_compare_loop) (rw (compare_round-end_both t u x y))
apk_compare_loop_lem (suc fuel) (stop {t = t} e x) (more {t = u} f y b) h k l =
    let (round, decides) = compare_round-end_left t u x y in
    rw (e, f, apk_compare_loop) (rw round (after-found _ _ _ (λ z. absurd (decides z))))
apk_compare_loop_lem (suc fuel) (more {t = t} e x a) (stop {t = u} f y) h k l =
    let (round, decides) = compare_round-end_right t u x y in
    rw (e, f, apk_compare_loop) (rw round (after-found _ _ _ (λ z. absurd (decides z))))
apk_compare_loop_lem (suc fuel) (more {sc = sa} {t = t} e x a) (more {t = u} f y b) h k l =
    let (ht, hs) = and_split (ltb t.value (2 ^ 63)) h in
    let (ku, ks) = and_split (ltb u.value (2 ^ 63)) k in
    let ih = apk_compare_loop_lem fuel a b hs ks (omega (arith, next-lowers sa e x)) in
    rw (e, f, apk_compare_loop)
      (rw (compare_round_lem t u (ltb→lt _ _ ht) (ltb→lt _ _ ku) x)
        (after-found (compare_apk_token t u) _ _ (λ _. ih)))

-- A version that `compareAlpine` accepts, with numbers that do not overflow.
pub record IsApkVersion (s : Bytes) : Type 0 where
  pub non_empty : is_empty s ≡ false
  pub valid : apk_valid s ≡ true
  pub small : has_small_values (apk_tokens s) ≡ true

apk_compare_lem :
    (a b : Bytes)
    → IsApkVersion a
    → IsApkVersion b
    → apk_compare a b ≡ compare_apk_tokens (apk_tokens a) (apk_tokens b)
unfolding apk_compare
apk_compare_lem a b p q =
    let run =
      apk_compare_loop_lem (suc (bound (new_apk_scanner a))) (apk_valid-Scans a p.valid)
        (apk_valid-Scans b q.valid) p.small q.small (omega arith) in
    rw (run, apk_compare)

-- Two versions that `apkValid` accepts, and whose numbers stay below 2 ^ 63 (`IsApkVersion`), are
-- compared by `compareAlpine` as the sequences of their tokens.
pub compare_alpine_lem :
    (a b : Bytes)
    → IsApkVersion a
    → IsApkVersion b
    → compare_alpine a b ≡ some (compare_apk_tokens (apk_tokens a) (apk_tokens b))
unfolding compare_alpine
compare_alpine_lem a b p q =
    rw (p.non_empty, q.non_empty, p.valid, q.valid) (rw (apk_compare_lem a b p q))

-- Exchanging the arguments of `compareAlpine` exchanges -1 and 1.
pub compare_alpine-flip :
    (a b : Bytes)
    → IsApkVersion a
    → IsApkVersion b
    → compare_alpine b a ≡ Option.map opposite (compare_alpine a b)
compare_alpine-flip a b p q =
    flip-ByKey compare_alpine compare_apk_tokens apk_tokens compare_apk_tokens-IsTotalPreorder a b
      (compare_alpine_lem a b p q) (compare_alpine_lem b a q p)

-- `compareAlpine` is transitive.
pub compare_alpine-chain :
    (a b c : Bytes) {r s : Ordering}
    → IsApkVersion a
    → IsApkVersion b
    → IsApkVersion c
    → compare_alpine a b ≡ some r
    → compare_alpine b c ≡ some s
    → r ≢ Ordering.gt
    → s ≢ Ordering.gt
    → compare_alpine a c ≡ some (first_nonzero r s)
compare_alpine-chain a b c p q o =
    chain-ByKey compare_alpine compare_apk_tokens apk_tokens compare_apk_tokens-IsTotalPreorder a b
      c (compare_alpine_lem a b p q) (compare_alpine_lem b c q o) (compare_alpine_lem a c p o)
