-- ===== src/Vercmp/Digits.antt =====
-- Runs of decimal digits compared as numbers, in the three ways that the comparators do it: by
-- length and then by `strcmp` (rpm.go, generic.go), and by their first difference (deb.go).
use bongsu.Prelude.{
  ℕ, ◌+◌, ◌-◌, ◌*◌, ◌≤◌, ◌<◌, compare, Ordering, ◌≡◌, refl, true, false, [], ◌∷◌, ◌∙◌, arith,
  dec_le, dec_lt, and_split, ◌==◌, if◌then◌else◌, length, all_of, starts_with,
}
use bongsu.Prelude.Order.{
  first_nonzero, first_nonzero_assoc, opposite, opposite-first_nonzero, Chains,
  Chains-first_nonzero, IsTotalPreorder, compare-IsTotalPreorder, on-IsTotalPreorder,
  then-IsTotalPreorder,
}
use bongsu.Text.{Bytes}
use bongsu.Vercmp.Chars.{is_digit}

-- `stripLeadingZeros`.
unfoldable pub strip_leading_zeros : Bytes → Bytes
strip_leading_zeros [] = []
strip_leading_zeros (c ∷ s) = let rest = strip_leading_zeros s in if c == b'0' then rest else c ∷ s

-- `strcmp`: the first byte that differs decides, then the lengths.
unfoldable pub strcmp : Bytes → Bytes → Ordering
strcmp [] [] = Ordering.eq
strcmp [] (y ∷ b) = Ordering.lt
strcmp (x ∷ a) [] = Ordering.gt
strcmp (x ∷ a) (y ∷ b) = first_nonzero (compare x y) (strcmp a b)

strcmp-flip : (a b : Bytes) → strcmp b a ≡ opposite (strcmp a b)
unfolding strcmp
strcmp-flip [] [] = refl
strcmp-flip [] (y ∷ b) = refl
strcmp-flip (x ∷ a) [] = refl
strcmp-flip (x ∷ a) (y ∷ b) =
    rw (compare-IsTotalPreorder.flip x y, strcmp-flip a b) (rw opposite-first_nonzero)

strcmp-chain : (a b c : Bytes) → Chains (strcmp a b) (strcmp b c) (strcmp a c)
unfolding strcmp
strcmp-chain [] [] c = λ _ _. refl
strcmp-chain [] (y ∷ b) [] = ground arith
strcmp-chain [] (y ∷ b) (z ∷ c) = λ _ _. refl
strcmp-chain (x ∷ a) [] c = ground arith
strcmp-chain (x ∷ a) (y ∷ b) [] = ground arith
strcmp-chain (x ∷ a) (y ∷ b) (z ∷ c) =
    Chains-first_nonzero _ _ _ _ _ _ (compare-IsTotalPreorder.chain x y z) (strcmp-chain a b c)

pub strcmp-IsTotalPreorder : IsTotalPreorder strcmp
strcmp-IsTotalPreorder = record { flip = strcmp-flip; chain = strcmp-chain }

-- `compareNumStr`, and the same steps written out in `rpmvercmp`.
unfoldable pub compare_num_str : Bytes → Bytes → Ordering
compare_num_str a b =
    let a' = strip_leading_zeros a in
    let b' = strip_leading_zeros b in first_nonzero (compare (length a') (length b')) (strcmp a' b')

-- The number that a run of digits denotes, read behind the number `n`.
abbrev pub value_from : ℕ → Bytes → ℕ
value_from n [] = n
value_from n (c ∷ s) = value_from (n * 10 + (c - b'0')) s

abbrev pub value : Bytes → ℕ
value = value_from 0

pub value-strip_leading_zeros : (s : Bytes) → value (strip_leading_zeros s) ≡ value s
unfolding strip_leading_zeros
value-strip_leading_zeros [] = refl
value-strip_leading_zeros (c ∷ s) = ground (arith, value-strip_leading_zeros s)

pub all_of-strip_leading_zeros :
    (s : Bytes) → all_of is_digit s ≡ true → all_of is_digit (strip_leading_zeros s) ≡ true
unfolding strip_leading_zeros
all_of-strip_leading_zeros [] h = refl
all_of-strip_leading_zeros (c ∷ s) h = ground (arith, all_of-strip_leading_zeros s)

pub starts_with-strip_leading_zeros :
    (s : Bytes) → starts_with (λ c. c == b'0') (strip_leading_zeros s) ≡ false
unfolding strip_leading_zeros
starts_with-strip_leading_zeros [] = refl
starts_with-strip_leading_zeros (c ∷ s) = ground (arith, starts_with-strip_leading_zeros s)

compare_step :
    (m n x y : ℕ)
    → is_digit x ≡ true
    → is_digit y ≡ true
    → compare (m * 10 + (x - b'0')) (n * 10 + (y - b'0'))
      ≡ first_nonzero (compare m n) (compare x y)
unfolding is_digit
compare_step m n x y p q = ground arith

pub compare-value_from :
    (a b : Bytes) (m n : ℕ)
    → all_of is_digit a ≡ true
    → all_of is_digit b ≡ true
    → length a ≡ length b
    → compare (value_from m a) (value_from n b) ≡ first_nonzero (compare m n) (strcmp a b)
unfolding strcmp
compare-value_from [] [] m n p q e = ground arith
compare-value_from [] (y ∷ b) m n p q e = absurd (omega arith)
compare-value_from (x ∷ a) [] m n p q e = absurd (omega arith)
compare-value_from (x ∷ a) (y ∷ b) m n p q e =
    let p' = and_split (is_digit x) p in
    let q' = and_split (is_digit y) q in
    compare-value_from a b _ _ p'.1 q'.1 (omega arith)
    ∙ rw (compare_step m n x y p'.0 q'.0) (rw first_nonzero_assoc)

-- A run that is not shorter, behind a positive number, denotes the larger number.
value_from-gt :
    (a b : Bytes) (m : ℕ)
    → all_of is_digit a ≡ true
    → all_of is_digit b ≡ true
    → length b ≤ length a
    → 0 < m
    → compare (value_from m a) (value b) ≡ Ordering.gt
value_from-gt [] [] m p q l h = ground arith
value_from-gt [] (y ∷ b) m p q l h = absurd (omega arith)
value_from-gt (x ∷ a) b m p q l h = elim (dec_le (length b) (length a)) [
  | yes longer ↦
      value_from-gt a b (m * 10 + (x - b'0')) (and_split (is_digit x) p).1 q longer (omega arith)
  | no short ↦ rw (compare-value_from (x ∷ a) b m 0 p q (omega arith)) (ground arith)
]

-- A longer run with no leading zero denotes the larger number.
value-gt_longer :
    (a b : Bytes)
    → all_of is_digit a ≡ true
    → all_of is_digit b ≡ true
    → starts_with (λ c. c == b'0') a ≡ false
    → length b < length a
    → compare (value a) (value b) ≡ Ordering.gt
unfolding is_digit
value-gt_longer [] b p q z l = absurd (omega arith)
value-gt_longer (x ∷ a) b p q z l =
    let p' = and_split (is_digit x) p in
    value_from-gt a b (0 + (x - b'0')) p'.1 q (omega arith) (ground (arith, p'.0))

-- By length and then by `strcmp`, for runs with no leading zero.
pub compare_stripped :
    (a b : Bytes)
    → all_of is_digit a ≡ true
    → all_of is_digit b ≡ true
    → starts_with (λ c. c == b'0') a ≡ false
    → starts_with (λ c. c == b'0') b ≡ false
    → first_nonzero (compare (length a) (length b)) (strcmp a b) ≡ compare (value a) (value b)
compare_stripped a b p q y z = elim (dec_lt (length b) (length a)) [
  | yes longer ↦ rw (value-gt_longer a b p q y longer) (ground arith)
  | no not_longer ↦ elim (dec_lt (length a) (length b)) [
    | yes shorter ↦ ground (arith, value-gt_longer b a q p z shorter)
    | no not_shorter ↦ rw (compare-value_from a b 0 0 p q (omega arith)) (ground arith)
  ]
]

-- `compareNumStr` orders runs of digits, of any length, as the numbers that they denote.
pub compare_num_str_lem :
    (a b : Bytes)
    → all_of is_digit a ≡ true
    → all_of is_digit b ≡ true
    → compare_num_str a b ≡ compare (value a) (value b)
unfolding compare_num_str
compare_num_str_lem a b p q =
    rw (← value-strip_leading_zeros a, ← value-strip_leading_zeros b)
      (compare_stripped (strip_leading_zeros a) (strip_leading_zeros b)
        (all_of-strip_leading_zeros a p) (all_of-strip_leading_zeros b q)
        (starts_with-strip_leading_zeros a) (starts_with-strip_leading_zeros b))

-- On any text, digits or not, `compareNumStr` is a total preorder.
pub compare_num_str-IsTotalPreorder : IsTotalPreorder compare_num_str
unfolding compare_num_str
compare_num_str-IsTotalPreorder =
    then-IsTotalPreorder
      (on-IsTotalPreorder (λ s. length (strip_leading_zeros s)) compare-IsTotalPreorder)
      (on-IsTotalPreorder strip_leading_zeros strcmp-IsTotalPreorder)
