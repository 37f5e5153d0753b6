-- ===== src/Prelude/Int.antt =====
-- Go's `int` where it can be negative, within its range. `negsuc n` is -(n + 1).
use Prim.Native.Nat.{ℕ, suc, ◌+◌, ◌-◌, compare, Ordering}
use mathlib.Core.Path.{◌≡◌}
use mathlib.Core.Logic.{◌↔◌}
use mathlib.Core.Bool.{Bool, true, false}
use native.Mathlib.Omega.{arith}
use bongsu.Prelude.Tests.{leb, ◌==◌, if◌then◌else◌}
use bongsu.Prelude.Order.{IsTotalPreorder}

pub data ℤ : Type 0 where
  pos : ℕ → ℤ
  negsuc : ℕ → ℤ

abbrev pub pos_part : ℤ → ℕ
pos_part (pos n) = n
pos_part (negsuc n) = 0

abbrev pub neg_part : ℤ → ℕ
neg_part (pos n) = 0
neg_part (negsuc n) = suc n

-- a - b, as an integer.
abbrev pub sub_ℕ : ℕ → ℕ → ℤ
sub_ℕ a b = if leb b a then pos (a - b) else negsuc (b - a - 1)

infixl 65 ◌-ℤ◌
unfoldable pub ◌-ℤ◌ : ℤ → ℤ → ℤ
a -ℤ b = sub_ℕ (pos_part a + neg_part b) (neg_part a + pos_part b)

-- `==` of integers.
abbrev pub eq_ℤ : ℤ → ℤ → Bool
eq_ℤ (pos m) (pos n) = m == n
eq_ℤ (negsuc m) (negsuc n) = m == n
eq_ℤ _ _ = false

-- Three-way comparison of integers.
abbrev pub compare_ℤ : ℤ → ℤ → Ordering
compare_ℤ a b = compare (pos_part a + neg_part b) (neg_part a + pos_part b)

pub compare_ℤ-IsTotalPreorder : IsTotalPreorder compare_ℤ
compare_ℤ-IsTotalPreorder = record { flip = λ a b. ground arith; chain = λ a b c p q. ground arith }

pub eq_ℤ-compare_ℤ : (a b : ℤ) → (eq_ℤ a b ≡ true) ↔ (compare_ℤ a b ≡ Ordering.eq)
eq_ℤ-compare_ℤ (pos m) (pos n) = ground arith
eq_ℤ-compare_ℤ _ _ = ground arith
