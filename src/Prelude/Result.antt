-- ===== src/Prelude/Result.antt =====
-- Go's pair of a value and an error, where one of the two is there.
use mathlib.Core.Path.{◌≡◌, refl, subst}
use mathlib.Core.Logic.{◌⊎◌, inl, inr}

pub data Result {ℓ κ} (E : Type ℓ) (A : Type κ) : Type (ℓ ⊔ κ) where
  ok : A → Result E A
  err : E → Result E A

infixl 5 ◌>>=◌
abbrev pub ◌>>=◌ : {E A B : Type 0} → Result E A → (A → Result E B) → Result E B
ok a >>= f = f a
err e >>= f = err e

-- `fmt.Errorf("...: %w", err)`.
abbrev pub map_err : {E F A : Type 0} → (E → F) → Result E A → Result F A
map_err f (ok a) = ok a
map_err f (err e) = err (f e)

pub Result-cases :
    {E A : Type 0} (r : Result E A) → ((a : A) × (r ≡ ok a)) ⊎ ((e : E) × (r ≡ err e))
Result-cases (ok a) = inl (a, refl)
Result-cases (err e) = inr (e, refl)

-- A result that is not an error meets `P`.
abbrev pub Ensures {ℓ} : {E A : Type 0} → (A → Type ℓ) → Result E A → Type ℓ
Ensures P (ok a) = P a
Ensures P (err e) = Unit

pub Ensures->>= :
    {E A B : Type 0} (P : A → Type 0) (Q : B → Type 0) (m : Result E A) (f : A → Result E B)
    → Ensures P m
    → ((a : A) → P a → Ensures Q (f a))
    → Ensures Q (m >>= f)
Ensures->>= P Q (ok a) f h k = k a h
Ensures->>= P Q (err e) f h k = tt

pub Ensures-map_err :
    {E F A : Type 0} (P : A → Type 0) (g : E → F) (m : Result E A)
    → Ensures P m
    → Ensures P (map_err g m)
Ensures-map_err P g (ok a) h = h
Ensures-map_err P g (err e) h = tt

pub Ensures-any : {E A : Type 0} (m : Result E A) → Ensures (λ (a : A). Unit {0}) m
Ensures-any (ok a) = tt
Ensures-any (err e) = tt

pub Ensures-weaken :
    {E A : Type 0} {P Q : A → Type 0}
    → ((a : A) → P a → Q a)
    → (m : Result E A) → Ensures P m
    → Ensures Q m
Ensures-weaken f (ok a) h = f a h
Ensures-weaken f (err e) h = tt

pub Ensures-ok :
    {E A : Type 0} (P : A → Type 0) (m : Result E A) {a : A} → Ensures P m → m ≡ ok a → P a
Ensures-ok P (ok b) h e = subst P (cc) h
Ensures-ok P (err x) h e = absurd (cc)
