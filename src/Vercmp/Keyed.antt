-- ===== src/Vercmp/Keyed.antt =====
-- Comparators that compare by a key: where the key's comparison is a total preorder, so is theirs.
use mathlib.Core.Option
use bongsu.Prelude.{Ordering, ◌≡◌, ◌≢◌, Option, some, arith}
use bongsu.Prelude.Order.{first_nonzero, opposite, IsTotalPreorder}

module _ {ℓ κ} {A : Type ℓ} {K : Type κ} (cmp : A → A → Option Ordering)
    (key_cmp : K → K → Ordering) (key : A → K) (t : IsTotalPreorder key_cmp) where
  -- `cmp` succeeds on these two, with the comparison of their keys.
  abbrev pub ByKey : A → A → Type 0
  ByKey a b = cmp a b ≡ some (key_cmp (key a) (key b))

  pub flip-ByKey : (a b : A) → ByKey a b → ByKey b a → cmp b a ≡ Option.map opposite (cmp a b)
  flip-ByKey a b p q = rw (p, q, t.flip (key a) (key b))

  pub chain-ByKey :
      (a b c : A) {r s : Ordering}
      → ByKey a b
      → ByKey b c
      → ByKey a c
      → cmp a b ≡ some r
      → cmp b c ≡ some s
      → r ≢ Ordering.gt
      → s ≢ Ordering.gt
      → cmp a c ≡ some (first_nonzero r s)
  chain-ByKey a b c {r} {s} p q o h k x y = ground (arith, t.chain (key a) (key b) (key c))
