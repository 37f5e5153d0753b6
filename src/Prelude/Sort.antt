-- ===== src/Prelude/Sort.antt =====
-- `sort.Strings` and the like, as an insertion sort: any sort gives the same list for an order in
-- which only equal items come before each other. Filtering a list and sorting it commute.
use mathlib.Core.Path.{◌≡◌, refl, ◌∙◌}
use mathlib.Core.Bool.{Bool, true, false, ◌&&◌}
use mathlib.Core.List.{List, [], ◌∷◌}
use mathlib.Core.Logic.{inl, inr}
use native.Mathlib.Omega.{arith}
use bongsu.Prelude.Tests.{if◌then◌else◌, Bool-cases, and_split}
use bongsu.Prelude.Lists.{all_of}

module _ {ℓ} {A : Type ℓ} where
  unfoldable pub filter : (A → Bool) → List A → List A
  filter p [] = []
  filter p (x ∷ xs) = let rest = filter p xs in if p x then x ∷ rest else rest

  pub all_of-filter :
      (q p : A → Bool) (xs : List A) → all_of q xs ≡ true → all_of q (filter p xs) ≡ true
  unfolding filter
  all_of-filter q p [] h = refl
  all_of-filter q p (x ∷ xs) h = ground (arith, all_of-filter q p xs)

  pub filter-filter : (p : A → Bool) (xs : List A) → filter p (filter p xs) ≡ filter p xs
  unfolding filter
  filter-filter p [] = refl
  filter-filter p (x ∷ xs) = ground (arith, filter-filter p xs)

  pub filter_all : (p : A → Bool) (xs : List A) → all_of p xs ≡ true → filter p xs ≡ xs
  unfolding filter
  filter_all p [] h = refl
  filter_all p (x ∷ xs) h =
      let (here, rest) = and_split (p x) h in rw (here, filter_all p xs rest) refl

  module _ (le : A → A → Bool) where
    unfoldable pub insert : A → List A → List A
    insert x [] = x ∷ []
    insert x (y ∷ ys) = let rest = insert x ys in if le x y then x ∷ y ∷ ys else y ∷ rest

    unfoldable pub sort : List A → List A
    unfolding insert
    sort [] = []
    sort (x ∷ xs) = insert x (sort xs)

    abbrev pub ascending : List A → Bool
    ascending [] = true
    ascending (x ∷ xs) = all_of (le x) xs && ascending xs

    pub all_of-insert :
        (q : A → Bool) (x : A) (xs : List A) → all_of q (insert x xs) ≡ (q x && all_of q xs)
    unfolding insert
    all_of-insert q x [] = refl
    all_of-insert q x (y ∷ ys) = ground (arith, all_of-insert q x ys)

    pub all_of-sort : (q : A → Bool) (xs : List A) → all_of q (sort xs) ≡ all_of q xs
    unfolding sort
    all_of-sort q [] = refl
    all_of-sort q (x ∷ xs) = all_of-insert q x (sort xs) ∙ rw (all_of-sort q xs) refl

    -- The order is total and transitive.
    module _ (total : (a b : A) → le a b ≡ false → le b a ≡ true)
        (trans : (a b c : A) → le a b ≡ true → le b c ≡ true → le a c ≡ true) where
      all_of-le :
          (x y : A) (ys : List A)
          → le x y ≡ true
          → all_of (le y) ys ≡ true
          → all_of (le x) ys ≡ true
      all_of-le x y [] l h = refl
      all_of-le x y (z ∷ ys) l h =
          let (here, rest) = and_split (le y z) h in
          rw (trans x y z l here, all_of-le x y ys l rest) refl

      insert-ascending :
          (x : A) (xs : List A) → ascending xs ≡ true → ascending (insert x xs) ≡ true
      unfolding insert
      insert-ascending x [] h = refl
      insert-ascending x (y ∷ ys) h =
          let (here, rest) = and_split (all_of (le y) ys) h in
          elim (Bool-cases (le x y)) [
            | inl l ↦ ground (arith, all_of-le x y ys l here)
            | inr g ↦
                rw (g, all_of-insert (le y) x ys, total x y g, here, insert-ascending x ys rest)
                  refl
          ]

      pub sort-ascending : (xs : List A) → ascending (sort xs) ≡ true
      unfolding sort
      sort-ascending [] = refl
      sort-ascending (x ∷ xs) = insert-ascending x (sort xs) (sort-ascending xs)

      insert_least : (x : A) (xs : List A) → all_of (le x) xs ≡ true → insert x xs ≡ x ∷ xs
      unfolding insert
      insert_least x [] h = refl
      insert_least x (y ∷ ys) h = rw ((and_split (le x y) h).0) refl

      filter-insert :
          (p : A → Bool) (x : A) (xs : List A)
          → ascending xs ≡ true
          → filter p (insert x xs) ≡ (if p x then insert x (filter p xs) else filter p xs)
      unfolding insert filter
      filter-insert p x [] h = refl
      filter-insert p x (y ∷ ys) h =
          let (here, rest) = and_split (all_of (le y) ys) h in
          elim (Bool-cases (le x y)) [
            | inl l ↦
                let above = all_of-filter (le x) p ys (all_of-le x y ys l here) in
                ground (arith, insert_least x (filter p ys) above)
            | inr g ↦ ground (arith, filter-insert p x ys rest)
          ]

      pub sort-filter : (p : A → Bool) (xs : List A) → sort (filter p xs) ≡ filter p (sort xs)
      unfolding sort filter
      sort-filter p [] = refl
      sort-filter p (x ∷ xs) =
          ground (arith, sort-filter p xs, filter-insert p x (sort xs) (sort-ascending xs))
