-- ===== src/Vercmp/Deb/Loops.antt =====
-- What each inner loop of `verrevcmp` computes.
use bongsu.Prelude.{
  ℕ, suc, compare, Ordering, ◌≡◌, refl, Bool, true, false, not, List, [], ◌∷◌, map, length,
  take_while, drop_while, arith, all_of, ◌==◌, ◌||◌, inl, inr, Bool-cases, and_split, ◌∙◌,
  if◌then◌else◌,
}
use bongsu.Prelude.Int.{ℤ, pos, ◌-ℤ◌, eq_ℤ, sub_ℕ, compare_ℤ}
use bongsu.Prelude.Order.{first_nonzero, compare_padded}
use bongsu.Text.{Bytes}
use bongsu.Vercmp.Chars.{is_digit}
use bongsu.Vercmp.Deb.{
  sign, debian_order, weight, at_nondigit, Run, decided, moved, nondigit_step, nondigit_loop,
  digit_loop,
}
use bongsu.Vercmp.Deb.Parts.{nondigits, from_digit}
use bongsu.Vercmp.Digits.{strcmp}

-- A comparison that has been made, and where the cursors stand if it is equal.
abbrev pub outcome : Ordering → Bytes → Bytes → Run
outcome Ordering.eq a b = moved a b
outcome r a b = decided r

-- No byte is 0, which is the weight of the end of the string.
abbrev pub has_no_nul : Bytes → Bool
has_no_nul = all_of (λ c. not (c == 0))

sign-sub : (a b : ℤ) → sign (a -ℤ b) ≡ compare_ℤ a b
unfolding sign ◌-ℤ◌
sign-sub a b = ground arith

sign-sub_ℕ : (a b : ℕ) → sign (sub_ℕ a b) ≡ compare a b
unfolding sign
sign-sub_ℕ a b = ground arith

-- Only byte 0 weighs as much as the end of the string.
debian_order-ne_end : (c : ℕ) → (not (c == 0)) ≡ true → eq_ℤ (debian_order c) (pos 0) ≡ false
unfolding debian_order
debian_order-ne_end c h = ground arith

-- One round of the loop over non-digits where one side at least stands at one.
unfoldable weights_then : ℤ → ℤ → Run → Run
weights_then wa wb next = if not (eq_ℤ wa wb) then decided (compare_ℤ wa wb) else next

nondigit_step_lem :
    (a b : Bytes) (next : Run)
    → (at_nondigit a || at_nondigit b) ≡ true
    → nondigit_step a b next ≡ weights_then (weight a) (weight b) next
unfolding nondigit_step weights_then
nondigit_step_lem a b next h = rw h (rw sign-sub)

-- Equal weights: the rest of the loop decides.
weights_then-outcome :
    (wa wb : ℤ) (r : Ordering) (a' b' : Bytes)
    → weights_then wa wb (outcome r a' b') ≡ outcome (first_nonzero (compare_ℤ wa wb) r) a' b'
unfolding weights_then
weights_then-outcome wa wb r a' b' = ground arith

-- Different weights decide.
weights_then-decided :
    (wa wb : ℤ) (next : Run) (r : Ordering) (a' b' : Bytes)
    → eq_ℤ wa wb ≡ false
    → weights_then wa wb next ≡ outcome (first_nonzero (compare_ℤ wa wb) r) a' b'
unfolding weights_then
weights_then-decided wa wb next r a' b' h = ground arith

eq_ℤ_sym : (a b : ℤ) → eq_ℤ a b ≡ eq_ℤ b a
eq_ℤ_sym a b = ground arith

weight_end : weight [] ≡ pos 0
unfolding weight debian_order
weight_end = refl

weight_digit : (c : ℕ) (s : Bytes) → is_digit c ≡ true → weight (c ∷ s) ≡ pos 0
unfolding weight
weight_digit c s h = rw h

weight_nondigit : (c : ℕ) (s : Bytes) → is_digit c ≡ false → weight (c ∷ s) ≡ debian_order c
unfolding weight
weight_nondigit c s h = rw h

-- The weights one by one, a shorter list filled up with the weight of the end of the string.
abbrev pub compare_weights : List ℤ → List ℤ → Ordering
compare_weights = compare_padded compare_ℤ (pos 0)

pub nondigit_loop_lem :
    (a b : Bytes)
    → has_no_nul a ≡ true
    → has_no_nul b ≡ true
    → nondigit_loop a b
      ≡ outcome
          (compare_weights (map debian_order (nondigits a)) (map debian_order (nondigits b)))
          (from_digit a)
          (from_digit b)
unfolding nondigit_loop take_while drop_while
nondigit_loop_lem [] [] p q = unfold nondigit_step in refl
nondigit_loop_lem [] (y ∷ b) p q = elim (Bool-cases (is_digit y)) [
  | inl d ↦ unfold nondigit_step in rw d
  | inr n ↦
      rw
        (
          nondigit_step_lem [] (y ∷ b) _ (rw n),
          nondigit_loop_lem [] b p (and_split (not (y == 0)) q).1,
        )
        (rw (weight_nondigit y b n, weight_end, n) (weights_then-outcome _ _ _ _ _))
]
nondigit_loop_lem (x ∷ a) [] p q = elim (Bool-cases (is_digit x)) [
  | inl d ↦ unfold nondigit_step in rw d
  | inr n ↦
      rw
        (
          nondigit_step_lem (x ∷ a) [] _ (rw n),
          nondigit_loop_lem a [] (and_split (not (x == 0)) p).1 q,
        )
        (rw (weight_nondigit x a n, weight_end, n) (weights_then-outcome _ _ _ _ _))
]
nondigit_loop_lem (x ∷ a) (y ∷ b) p q =
    let (x_ne, p') = and_split (not (x == 0)) p in
    let (y_ne, q') = and_split (not (y == 0)) q in
    elim (Bool-cases (is_digit x)) [
      | inl dx ↦ elim (Bool-cases (is_digit y)) [
        | inl dy ↦ unfold nondigit_step in rw (dx, dy)
        | inr ny ↦
            rw
              (
                nondigit_step_lem (x ∷ a) (y ∷ b) _ (rw (dx, ny)),
                weight_digit x a dx,
                weight_nondigit y b ny,
                dx,
                ny,
              )
              (weights_then-decided _ _ _ _ _ _
                (eq_ℤ_sym (pos 0) (debian_order y) ∙ debian_order-ne_end y y_ne))
      ]
      | inr nx ↦ elim (Bool-cases (is_digit y)) [
        | inl dy ↦
            rw
              (
                nondigit_step_lem (x ∷ a) (y ∷ b) _ (rw (dy, nx)),
                weight_nondigit x a nx,
                weight_digit y b dy,
                dy,
                nx,
              )
              (weights_then-decided _ _ _ _ _ _ (debian_order-ne_end x x_ne))
        | inr ny ↦
            rw
              (
                nondigit_step_lem (x ∷ a) (y ∷ b) _ (rw nx),
                weight_nondigit x a nx,
                weight_nondigit y b ny,
                nondigit_loop_lem a b p' q',
                nx,
                ny,
              )
              (weights_then-outcome _ _ _ _ _)
      ]
    ]

-- What the comparison of one more pair of digits adds to `firstDiff`.
first_diff_lem :
    (d : ℤ) (x y : ℕ) (r : Ordering)
    → first_nonzero (sign (if eq_ℤ d (pos 0) then sub_ℕ x y else d)) r
      ≡ first_nonzero (sign d) (first_nonzero (compare x y) r)
unfolding sign
first_diff_lem d x y r = ground (arith, sign-sub_ℕ x y)

compare-suc : (m n : ℕ) → compare (suc m) (suc n) ≡ compare m n
compare-suc m n = ground arith

pub digit_loop_lem :
    (a b : Bytes) (d : ℤ)
    → digit_loop d a b
      ≡ outcome
          (first_nonzero
            (compare (length (take_while is_digit a)) (length (take_while is_digit b)))
            (first_nonzero (sign d) (strcmp (take_while is_digit a) (take_while is_digit b))))
          (drop_while is_digit a)
          (drop_while is_digit b)
unfolding digit_loop strcmp take_while drop_while
digit_loop_lem [] [] d = ground arith
digit_loop_lem [] (y ∷ b) d = ground arith
digit_loop_lem (x ∷ a) [] d = ground arith
digit_loop_lem (x ∷ a) (y ∷ b) d = elim (Bool-cases (is_digit x)) [
  | inl dx ↦ elim (Bool-cases (is_digit y)) [
    | inl dy ↦ rw (dx, dy) (digit_loop_lem a b _ ∙ rw (first_diff_lem, compare-suc))
    | inr ny ↦ rw (dx, ny) (ground arith)
  ]
  | inr nx ↦ elim (Bool-cases (is_digit y)) [
    | inl dy ↦ rw (nx, dy) (ground arith)
    | inr ny ↦ rw (nx, ny) (ground arith)
  ]
]
