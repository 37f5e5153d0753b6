-- ===== src/Text/Decimal.antt =====
-- `%d` of a number that is not negative.
use native.Mathlib.Nat.{mod-add-div', div-lt_self}
use bongsu.Prelude.{
  ℕ, zero, suc, ◌+◌, ◌-◌, ◌*◌, ◌/◌, ◌%◌, ◌<◌, ◌≤◌, ◌≡◌, refl, sym, ap, ◌∙◌, true, [], ◌∷◌, ◌++◌,
  arith, ltb, if◌then◌else◌, Bool-cases, inl, inr,
}
use bongsu.Text.{Bytes}
use bongsu.Text.Pieces.{lacks, lacks-append}

-- The number of digits is at most the fuel.
unfoldable pub decimal_on : ℕ → ℕ → Bytes
decimal_on zero n = []
decimal_on (suc fuel) n =
    let front = decimal_on fuel (n / 10) in
    if ltb n 10 then (b'0' + n) ∷ [] else front ++ (b'0' + n % 10) ∷ []

unfoldable pub decimal : ℕ → Bytes
unfolding decimal_on
decimal n = decimal_on (suc n) n

-- The number that digits stand for, behind those read already.
abbrev value_from : ℕ → Bytes → ℕ
value_from v [] = v
value_from v (c ∷ s) = value_from (v * 10 + (c - b'0')) s

value_from-append : (v : ℕ) (s t : Bytes) → value_from v (s ++ t) ≡ value_from (value_from v s) t
value_from-append v [] t = refl
value_from-append v (c ∷ s) t = value_from-append (v * 10 + (c - b'0')) s t

value_from-decimal_on : (fuel n : ℕ) → n < fuel → value_from 0 (decimal_on fuel n) ≡ n
unfolding decimal_on
value_from-decimal_on zero n l = absurd (omega arith)
value_from-decimal_on (suc fuel) n l = elim (Bool-cases (ltb n 10)) [
  | inl small ↦ rw small (omega arith)
  | inr big ↦
      let ten : 10 ≤ n = ground (arith, big) in
      let less : n / 10 < fuel =
        ground (arith, div-lt_self {n = n} {k = 10} (omega arith) (omega arith)) in
      let front = value_from-decimal_on fuel (n / 10) less in
      rw (big, value_from-append 0 (decimal_on fuel (n / 10)) ((b'0' + n % 10) ∷ []), front)
        (omega (arith, mod-add-div' n 10))
]

pub decimal_injective : (n m : ℕ) → decimal n ≡ decimal m → n ≡ m
unfolding decimal
decimal_injective n m h =
    sym (value_from-decimal_on (suc n) n (omega arith))
    ∙ ap (value_from 0) h
    ∙ value_from-decimal_on (suc m) m (omega arith)

lacks-decimal_on : (b fuel n : ℕ) → b < b'0' → lacks b (decimal_on fuel n) ≡ true
unfolding decimal_on
lacks-decimal_on b zero n l = refl
lacks-decimal_on b (suc fuel) n l = elim (Bool-cases (ltb n 10)) [
  | inl small ↦ rw small (ground (arith, l))
  | inr big ↦ rw big (
      lacks-append b (decimal_on fuel (n / 10)) ((b'0' + n % 10) ∷ [])
        (lacks-decimal_on b fuel (n / 10) l) (ground (arith, l)))
]

pub lacks-decimal : (b n : ℕ) → b < b'0' → lacks b (decimal n) ≡ true
unfolding decimal
lacks-decimal b n l = lacks-decimal_on b (suc n) n l
