-- ===== src/Vercmp/Laws.antt =====
-- `Compare` as an order, over all ecosystems.
use mathlib.Core.Option
use bongsu.Prelude.{
  Ordering, ◌≡◌, ◌≢◌, sym, ap, subst, ◌∙◌, true, false, some, arith, Bool-cases, inl, inr,
}
use bongsu.Prelude.Order.{first_nonzero, opposite, self_eq}
use bongsu.Text.{Bytes, is_empty, equal, equal_iff, trim_space}
use bongsu.Vercmp.{
  Family, debian, rhel, alpine, generic, family, compare_by, compare_trimmed, compare,
}
use bongsu.Vercmp.Apk.Laws.{
  IsApkVersion, compare_alpine_lem, compare_alpine-flip, compare_alpine-chain,
}
use bongsu.Vercmp.Apk.Order.{compare_apk_tokens-IsTotalPreorder}
use bongsu.Vercmp.Apk.Scan.{apk_tokens}
use bongsu.Vercmp.Deb.Laws.{
  debian_key, compare_debian_key-IsTotalPreorder, compare_debian_lem, compare_debian-flip,
  compare_debian-chain,
}
use bongsu.Vercmp.Deb.Loops.{has_no_nul}
use bongsu.Vercmp.Generic.Laws.{compare_generic-flip}
use bongsu.Vercmp.Rpm.Laws.{
  rpm_key, compare_rpm_key-IsTotalPreorder, compare_rpm_lem, compare_rpm-flip, compare_rpm-chain,
}

-- What a family asks of a version, beside that it is not empty.
abbrev pub Accepts : Family → Bytes → Type 0
Accepts debian s = has_no_nul s ≡ true
Accepts rhel s = Unit
Accepts alpine s = IsApkVersion s
Accepts generic s = Unit

compare_by-flip :
    (f : Family) (a b : Bytes)
    → is_empty a ≡ false
    → is_empty b ≡ false
    → Accepts f a
    → Accepts f b
    → compare_by f b a ≡ Option.map opposite (compare_by f a b)
unfolding compare_by
compare_by-flip debian a b x y p q = compare_debian-flip a b x y p q
compare_by-flip rhel a b x y p q = compare_rpm-flip a b x y
compare_by-flip alpine a b x y p q = compare_alpine-flip a b p q
compare_by-flip generic a b x y p q = compare_generic-flip a b

equal_sym : (a b : Bytes) → equal b a ≡ equal a b
equal_sym a b = ground (arith, equal_iff a b, equal_iff b a)

compare_trimmed-flip :
    (f : Family) (a b : Bytes)
    → Accepts f a
    → Accepts f b
    → compare_trimmed f b a ≡ Option.map opposite (compare_trimmed f a b)
unfolding compare_trimmed
compare_trimmed-flip f a b p q = ground (
  arith,
  equal_sym a b,
  λ (x : is_empty a ≡ false) (y : is_empty b ≡ false). compare_by-flip f a b x y p q,
)

-- Exchanging the versions given to `Compare` exchanges -1 and 1, and keeps a failure, in every
-- ecosystem and for all versions that its family accepts (`Accepts`).
pub compare-flip :
    (ecosystem a b : Bytes)
    → Accepts (family ecosystem) (trim_space a)
    → Accepts (family ecosystem) (trim_space b)
    → compare ecosystem b a ≡ Option.map opposite (compare ecosystem a b)
unfolding compare
compare-flip ecosystem a b = compare_trimmed-flip (family ecosystem) (trim_space a) (trim_space b)

-- All families but the generic one (Generic/Cycle).
abbrev pub IsOrdered : Family → Type 0
IsOrdered generic = ⊥
IsOrdered _ = Unit

compare_by_self :
    (f : Family) (a : Bytes)
    → IsOrdered f
    → is_empty a ≡ false
    → Accepts f a
    → compare_by f a a ≡ some Ordering.eq
unfolding compare_by
compare_by_self debian a o x p =
    compare_debian_lem a a x x p p
    ∙ ap some (self_eq compare_debian_key-IsTotalPreorder (debian_key a))
compare_by_self rhel a o x p =
    compare_rpm_lem a a x x ∙ ap some (self_eq compare_rpm_key-IsTotalPreorder (rpm_key a))
compare_by_self alpine a o x p =
    compare_alpine_lem a a p p ∙ ap some (self_eq compare_apk_tokens-IsTotalPreorder (apk_tokens a))
compare_by_self generic a o x p = absurd o

-- The short cut for equal strings gives what the comparator of the family gives.
compare_trimmed_lem :
    (f : Family) (a b : Bytes)
    → IsOrdered f
    → is_empty a ≡ false
    → is_empty b ≡ false
    → Accepts f a
    → compare_trimmed f a b ≡ compare_by f a b
unfolding compare_trimmed
compare_trimmed_lem f a b o x y p = elim (Bool-cases (equal a b)) [
  | inl e ↦
      rw (x, y, e, compare_trimmed)
        (subst (λ z. some Ordering.eq ≡ compare_by f a z) ((equal_iff a b).0 e)
          (sym (compare_by_self f a o x p)))
  | inr n ↦ rw (x, y, n, compare_trimmed)
]

compare_by-chain :
    (f : Family) (a b c : Bytes) {r s : Ordering}
    → IsOrdered f
    → is_empty a ≡ false
    → is_empty b ≡ false
    → is_empty c ≡ false
    → Accepts f a
    → Accepts f b
    → Accepts f c
    → compare_by f a b ≡ some r
    → compare_by f b c ≡ some s
    → r ≢ Ordering.gt
    → s ≢ Ordering.gt
    → compare_by f a c ≡ some (first_nonzero r s)
unfolding compare_by
compare_by-chain debian a b c o x y z p q t = compare_debian-chain a b x y p q c z t
compare_by-chain rhel a b c o x y z p q t = compare_rpm-chain a b c x y z
compare_by-chain alpine a b c o x y z p q t = compare_alpine-chain a b c p q t
compare_by-chain generic a b c o x y z p q t = absurd o

-- A result is one on strings that are not empty.
compare_trimmed-non_empty :
    (f : Family) (a b : Bytes) {r : Ordering}
    → compare_trimmed f a b ≡ some r
    → (is_empty a ≡ false) × (is_empty b ≡ false)
unfolding compare_trimmed
compare_trimmed-non_empty f a b h = ground arith

compare_trimmed-chain :
    (f : Family) (a b c : Bytes) {r s : Ordering}
    → IsOrdered f
    → Accepts f a
    → Accepts f b
    → Accepts f c
    → compare_trimmed f a b ≡ some r
    → compare_trimmed f b c ≡ some s
    → r ≢ Ordering.gt
    → s ≢ Ordering.gt
    → compare_trimmed f a c ≡ some (first_nonzero r s)
compare_trimmed-chain f a b c o p q t h k =
    let (x, y) = compare_trimmed-non_empty f a b h in
    let (_, z) = compare_trimmed-non_empty f b c k in
    rw (compare_trimmed_lem f a c o x z p) (
      compare_by-chain f a b c o x y z p q t (rw (compare_trimmed_lem f a b o x y p) at h)
        (rw (compare_trimmed_lem f b c o y z q) at k))

-- `Compare` is transitive in the ecosystems of dpkg, RPM and apk, on versions that the family
-- accepts (`Accepts`): where it finds `a` not above `b` and `b` not above `c`, its result on `a`
-- and `c` is the first of those two that is not 0.
pub compare-chain :
    (ecosystem a b c : Bytes) {r s : Ordering}
    → IsOrdered (family ecosystem)
    → Accepts (family ecosystem) (trim_space a)
    → Accepts (family ecosystem) (trim_space b)
    → Accepts (family ecosystem) (trim_space c)
    → compare ecosystem a b ≡ some r
    → compare ecosystem b c ≡ some s
    → r ≢ Ordering.gt
    → s ≢ Ordering.gt
    → compare ecosystem a c ≡ some (first_nonzero r s)
unfolding compare
compare-chain ecosystem a b c =
    compare_trimmed-chain (family ecosystem) (trim_space a) (trim_space b) (trim_space c)
