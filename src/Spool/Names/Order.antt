-- ===== src/Spool/Names/Order.antt =====
-- The names of spool files are in the order of their times.
use native.Mathlib.Nat.{mod-add-div', mod-lt, le-div_iff_mul-le}
use bongsu.Prelude.{
  ℕ, zero, suc, ◌*◌, ◌/◌, ◌%◌, ◌^◌, ◌≤◌, ◌<◌, ◌≡◌, true, false, List, ◌++◌, arith, ◌⊎◌, inl, inr,
  ap, dec_lt,
}
use bongsu.Text.{Bytes}
use bongsu.Text.Order.{string_le}
use bongsu.Spool.Names.{padded, spool_file_name}

-- `s` is before `t`.
abbrev pub IsBefore : Bytes → Bytes → Type 0
IsBefore s t = (string_le s t ≡ true) × (string_le t s ≡ false)

pow-pos : (w : ℕ) → 0 < 10 ^ w
pow-pos zero = omega arith
pow-pos (suc w) = omega (arith, pow-pos w)

quotient-cases : (n m p : ℕ) → 0 < p → n < m → (n / p < m / p) ⊎ ((n / p ≡ m / p) × (n % p < m % p))
quotient-cases n m p pp l =
    let en = mod-add-div' n p in
    let em = mod-add-div' m p in
    let le : n / p ≤ m / p = (le-div_iff_mul-le pp).1 (omega (arith, en)) in
    elim (dec_lt (n / p) (m / p)) [
      | yes lt ↦ inl lt
      | no ge ↦
          let same : n / p ≡ m / p = omega arith in
          inr (same, omega (arith, en, em, ap (λ q. q * p) same))
    ]

-- Both are padded to the same width.
padded-IsBefore :
    (w n m : ℕ) (s t : Bytes) → n < m → m < 10 ^ w → IsBefore (padded w n ++ s) (padded w m ++ t)
unfolding padded string_le
padded-IsBefore zero n m s t l b = absurd (omega arith)
padded-IsBefore (suc w) n m s t l b =
    let small = mod-lt m (pow-pos w) in
    elim (quotient-cases n m (10 ^ w) (pow-pos w) l) [
      | inl lt ↦ ground arith
      | inr (same, lt) ↦
          let (p, q) = padded-IsBefore w (n % 10 ^ w) (m % 10 ^ w) s t lt small in ground arith
    ]

-- For two times from 1970 on, below 10 ^ 20 nanoseconds, `spoolFileName` gives the earlier one a
-- name that is before that of the later one in the order of strings, whatever the scan ids.
pub spool_file_name-IsBefore :
    (t u : ℕ) (a b : List ℕ)
    → t < u
    → u < 10 ^ 20
    → IsBefore (spool_file_name t a) (spool_file_name u b)
unfolding spool_file_name
spool_file_name-IsBefore t u a b l small = padded-IsBefore 20 t u _ _ l small
