-- ===== src/Prelude/Order.antt =====
-- Three-way comparison. Go's `int` results -1, 0 and 1 are `lt`, `eq` and `gt`.
use Prim.Native.Nat.{compare, Ordering}
use mathlib.Core.Path.{◌≡◌, refl}
use mathlib.Core.Logic.{◌≢◌}
use mathlib.Core.List.{List, [], ◌∷◌}
use native.Mathlib.Omega.{arith}

-- `if c := first; c != 0 { return c }; return second`.
abbrev pub first_nonzero : Ordering → Ordering → Ordering
first_nonzero Ordering.eq r = r
first_nonzero Ordering.lt r = Ordering.lt
first_nonzero Ordering.gt r = Ordering.gt

-- The comparison with its arguments exchanged.
abbrev pub opposite : Ordering → Ordering
opposite Ordering.lt = Ordering.gt
opposite Ordering.eq = Ordering.eq
opposite Ordering.gt = Ordering.lt

-- What transitivity asks of the comparisons of `a` with `b`, `b` with `c` and `a` with `c`: where
-- neither of the first two is `gt`, the third is the first of them that is not `eq`.
abbrev pub Chains : Ordering → Ordering → Ordering → Type 0
Chains p q r = p ≢ Ordering.gt → q ≢ Ordering.gt → r ≡ first_nonzero p q

-- A comparison that is a total preorder.
pub record IsTotalPreorder {ℓ} {A : Type ℓ} (cmp : A → A → Ordering) : Type ℓ where
  pub flip : (a b : A) → cmp b a ≡ opposite (cmp a b)
  pub chain : (a b c : A) → Chains (cmp a b) (cmp b c) (cmp a c)

pub self_eq {ℓ} :
    {A : Type ℓ} {cmp : A → A → Ordering} → IsTotalPreorder cmp → (a : A) → cmp a a ≡ Ordering.eq
self_eq {cmp} t a = go (cmp a a) (t.flip a a)
  where
    go : (o : Ordering) → o ≡ opposite o → o ≡ Ordering.eq
    go Ordering.lt e = ground arith
    go Ordering.eq e = refl
    go Ordering.gt e = ground arith

pub first_nonzero_assoc :
    (p q r : Ordering) → first_nonzero (first_nonzero p q) r ≡ first_nonzero p (first_nonzero q r)
first_nonzero_assoc Ordering.lt q r = refl
first_nonzero_assoc _ q r = refl

pub opposite-first_nonzero :
    (p q : Ordering) → opposite (first_nonzero p q) ≡ first_nonzero (opposite p) (opposite q)
opposite-first_nonzero Ordering.lt q = refl
opposite-first_nonzero _ q = refl

pub Chains-first_nonzero :
    (p q r p' q' r' : Ordering)
    → Chains p q r
    → Chains p' q' r'
    → Chains (first_nonzero p p') (first_nonzero q q') (first_nonzero r r')
Chains-first_nonzero Ordering.lt Ordering.lt r p' q' r' h k = ground arith
Chains-first_nonzero _ _ r p' q' r' h k = ground arith

Chains-eq : (p : Ordering) → Chains p Ordering.eq p
Chains-eq Ordering.lt = λ _ _. refl
Chains-eq _ = λ _ _. refl

pub compare-IsTotalPreorder : IsTotalPreorder compare
compare-IsTotalPreorder = record { flip = λ a b. ground arith; chain = λ a b c p q. ground arith }

-- A comparison through a key.
pub on-IsTotalPreorder {ℓ κ} :
    {A : Type ℓ} {B : Type κ} (key : A → B) {cmp : B → B → Ordering}
    → IsTotalPreorder cmp
    → IsTotalPreorder (λ a b. cmp (key a) (key b))
on-IsTotalPreorder key t = record {
  flip = λ a b. t.flip (key a) (key b);
  chain = λ a b c. t.chain (key a) (key b) (key c);
}

-- By one comparison, and where that gives `eq` by another.
pub then-IsTotalPreorder {ℓ} :
    {A : Type ℓ} {cmp cmp' : A → A → Ordering}
    → IsTotalPreorder cmp
    → IsTotalPreorder cmp'
    → IsTotalPreorder (λ a b. first_nonzero (cmp a b) (cmp' a b))
then-IsTotalPreorder {cmp} {cmp'} t u = record {
  flip = λ a b. rw (t.flip a b, u.flip a b) (rw opposite-first_nonzero);
  chain = λ a b c. Chains-first_nonzero _ _ _ _ _ _ (t.chain a b c) (u.chain a b c);
}

-- Lists compared item by item from the front, the shorter filled up with `d`.
module _ {ℓ} {A : Type ℓ} (cmp : A → A → Ordering) (d : A) where
  abbrev pub compare_padded : List A → List A → Ordering
  compare_padded [] [] = Ordering.eq
  compare_padded [] (y ∷ ys) = first_nonzero (cmp d y) (compare_padded [] ys)
  compare_padded (x ∷ xs) [] = first_nonzero (cmp x d) (compare_padded xs [])
  compare_padded (x ∷ xs) (y ∷ ys) = first_nonzero (cmp x y) (compare_padded xs ys)

  compare_padded-flip :
      IsTotalPreorder cmp
      → (xs ys : List A) → compare_padded ys xs ≡ opposite (compare_padded xs ys)
  compare_padded-flip t [] [] = refl
  compare_padded-flip t [] (y ∷ ys) =
      rw (t.flip d y, compare_padded-flip t [] ys) (rw opposite-first_nonzero)
  compare_padded-flip t (x ∷ xs) [] =
      rw (t.flip x d, compare_padded-flip t xs []) (rw opposite-first_nonzero)
  compare_padded-flip t (x ∷ xs) (y ∷ ys) =
      rw (t.flip x y, compare_padded-flip t xs ys) (rw opposite-first_nonzero)

  compare_padded-chain :
      IsTotalPreorder cmp
      → (xs ys zs : List A)
      → Chains (compare_padded xs ys) (compare_padded ys zs) (compare_padded xs zs)
  compare_padded-chain t [] [] zs = λ _ _. refl
  compare_padded-chain t [] (y ∷ ys) [] =
      rw (self_eq t d) at
        (Chains-first_nonzero _ _ _ _ _ _ (t.chain d y d) (compare_padded-chain t [] ys []))
  compare_padded-chain t [] (y ∷ ys) (z ∷ zs) =
      Chains-first_nonzero _ _ _ _ _ _ (t.chain d y z) (compare_padded-chain t [] ys zs)
  compare_padded-chain t (x ∷ xs) [] [] = Chains-eq _
  compare_padded-chain t (x ∷ xs) [] (z ∷ zs) =
      Chains-first_nonzero _ _ _ _ _ _ (t.chain x d z) (compare_padded-chain t xs [] zs)
  compare_padded-chain t (x ∷ xs) (y ∷ ys) [] =
      Chains-first_nonzero _ _ _ _ _ _ (t.chain x y d) (compare_padded-chain t xs ys [])
  compare_padded-chain t (x ∷ xs) (y ∷ ys) (z ∷ zs) =
      Chains-first_nonzero _ _ _ _ _ _ (t.chain x y z) (compare_padded-chain t xs ys zs)

  -- The first item of a list that is filled up, and the rest.
  abbrev pub head_or : List A → A
  head_or [] = d
  head_or (x ∷ xs) = x

  abbrev pub rest : List A → List A
  rest [] = []
  rest (x ∷ xs) = xs

  pub compare_padded_step :
      (xs ys : List A)
      → cmp d d ≡ Ordering.eq
      → compare_padded xs ys
        ≡ first_nonzero (cmp (head_or xs) (head_or ys)) (compare_padded (rest xs) (rest ys))
  compare_padded_step [] [] h = rw h
  compare_padded_step [] (y ∷ ys) h = refl
  compare_padded_step (x ∷ xs) [] h = refl
  compare_padded_step (x ∷ xs) (y ∷ ys) h = refl

  pub compare_padded-IsTotalPreorder : IsTotalPreorder cmp → IsTotalPreorder compare_padded
  compare_padded-IsTotalPreorder t = record {
    flip = compare_padded-flip t;
    chain = compare_padded-chain t;
  }
