-- ===== src/Prelude/Lists.antt =====
-- Lists measured by native numbers, and the runs of a list that a loop over it consumes.
use Prim.Native.Nat.{ℕ, zero, suc, ◌≤◌}
use mathlib.Core.Path.{◌≡◌, refl, ap}
use mathlib.Core.Bool.{Bool, true, false, ◌&&◌, ◌||◌}
use mathlib.Core.List.{List, [], ◌∷◌, ◌++◌}
use native.Mathlib.Omega.{arith}
use bongsu.Prelude.Tests.{if◌then◌else◌}

module _ {ℓ} {A : Type ℓ} where
  abbrev pub length : List A → ℕ
  length [] = 0
  length (x ∷ xs) = suc (length xs)

  -- `for i < len(s) && p(s[i]) { i++ }`, as the part passed and the part left.
  unfoldable pub take_while : (A → Bool) → List A → List A
  take_while p [] = []
  take_while p (x ∷ xs) = let rest = take_while p xs in if p x then x ∷ rest else []

  unfoldable pub drop_while : (A → Bool) → List A → List A
  drop_while p [] = []
  drop_while p (x ∷ xs) = let rest = drop_while p xs in if p x then rest else x ∷ xs

  pub length-drop_while-le : (p : A → Bool) (xs : List A) → length (drop_while p xs) ≤ length xs
  unfolding drop_while
  length-drop_while-le p [] = omega arith
  length-drop_while-le p (x ∷ xs) = ground (arith, length-drop_while-le p xs)

  abbrev pub take : ℕ → List A → List A
  take zero xs = []
  take (suc n) [] = []
  take (suc n) (x ∷ xs) = x ∷ take n xs

  abbrev pub drop : ℕ → List A → List A
  drop zero xs = xs
  drop (suc n) [] = []
  drop (suc n) (x ∷ xs) = drop n xs

  pub take-append-drop : (n : ℕ) (xs : List A) → take n xs ++ drop n xs ≡ xs
  take-append-drop zero xs = refl
  take-append-drop (suc n) [] = refl
  take-append-drop (suc n) (x ∷ xs) = ap (◌∷◌ x) (take-append-drop n xs)

  pub take_while-append-drop_while :
      (p : A → Bool) (xs : List A) → take_while p xs ++ drop_while p xs ≡ xs
  unfolding take_while drop_while
  take_while-append-drop_while p [] = refl
  take_while-append-drop_while p (x ∷ xs) = ground (arith, take_while-append-drop_while p xs)

  -- Every item passes the test.
  abbrev pub all_of : (A → Bool) → List A → Bool
  all_of p [] = true
  all_of p (x ∷ xs) = p x && all_of p xs

  -- Some item passes the test.
  abbrev pub any_of : (A → Bool) → List A → Bool
  any_of p [] = false
  any_of p (x ∷ xs) = p x || any_of p xs

  -- The list begins with an item that passes the test.
  abbrev pub starts_with : (A → Bool) → List A → Bool
  starts_with p [] = false
  starts_with p (x ∷ xs) = p x

  pub all_of-take_while : (p : A → Bool) (xs : List A) → all_of p (take_while p xs) ≡ true
  unfolding take_while
  all_of-take_while p [] = refl
  all_of-take_while p (x ∷ xs) = ground (arith, all_of-take_while p xs)

  pub starts_with-drop_while :
      (p : A → Bool) (xs : List A) → starts_with p (drop_while p xs) ≡ false
  unfolding drop_while
  starts_with-drop_while p [] = refl
  starts_with-drop_while p (x ∷ xs) = ground (arith, starts_with-drop_while p xs)

  pub all_of-drop_while :
      (q p : A → Bool) (xs : List A) → all_of q xs ≡ true → all_of q (drop_while p xs) ≡ true
  unfolding drop_while
  all_of-drop_while q p [] h = refl
  all_of-drop_while q p (x ∷ xs) h = ground (arith, all_of-drop_while q p xs)

  pub length-take-le : (n : ℕ) (xs : List A) → length (take n xs) ≤ n
  length-take-le zero xs = omega arith
  length-take-le (suc n) [] = omega arith
  length-take-le (suc n) (x ∷ xs) = omega (arith, length-take-le n xs)

  pub all_of-take :
      (q : A → Bool) (n : ℕ) (xs : List A) → all_of q xs ≡ true → all_of q (take n xs) ≡ true
  all_of-take q zero xs h = refl
  all_of-take q (suc n) [] h = refl
  all_of-take q (suc n) (x ∷ xs) h = ground (arith, all_of-take q n xs)

  pub all_of-drop :
      (q : A → Bool) (n : ℕ) (xs : List A) → all_of q xs ≡ true → all_of q (drop n xs) ≡ true
  all_of-drop q zero xs h = h
  all_of-drop q (suc n) [] h = refl
  all_of-drop q (suc n) (x ∷ xs) h = ground (arith, all_of-drop q n xs)

  pub length-drop-le : (n : ℕ) (xs : List A) → length (drop n xs) ≤ length xs
  length-drop-le zero xs = omega arith
  length-drop-le (suc n) [] = omega arith
  length-drop-le (suc n) (x ∷ xs) = omega (arith, length-drop-le n xs)
