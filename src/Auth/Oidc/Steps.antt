-- ===== src/Auth/Oidc/Steps.antt =====
-- What a chain of checks that gives a result has passed.
use bongsu.Prelude.{◌≡◌, refl, Bool, true, false, Option, none, some}
use bongsu.Prelude.Result.{Result, ok, err, ◌>>=◌}
use bongsu.Text.{Bytes}
use bongsu.Auth.Keys.{or_err, unless}

pub >>=-ok :
    {E A B : Type 0} (m : Result E A) (f : A → Result E B) {b : B}
    → m >>= f ≡ ok b
    → (a : A) × (m ≡ ok a) × (f a ≡ ok b)
>>=-ok (ok a) f h = (a, refl, h)
>>=-ok (err e) f h = absurd (cc)

pub ok-injective : {E A : Type 0} {a b : A} → ◌≡◌ {A = Result E A} (ok a) (ok b) → a ≡ b
ok-injective h = cc

pub unless-ok :
    {B : Type 0} (bad : Bool) (e : Bytes) (f : Unit → Result Bytes B) {b : B}
    → unless bad e >>= f ≡ ok b
    → (bad ≡ false) × (f tt ≡ ok b)
unless-ok false e f h = (refl, h)
unless-ok true e f h = absurd (cc)

pub or_err-ok :
    {A B : Type 0} (e : Bytes) (o : Option A) (f : A → Result Bytes B) {b : B}
    → or_err e o >>= f ≡ ok b
    → (a : A) × (o ≡ some a) × (f a ≡ ok b)
or_err-ok e (some a) f h = (a, refl, h)
or_err-ok e none f h = absurd (cc)

pub err-ok : {E A : Type 0} {e : E} {a : A} → ◌≡◌ {A = Result E A} (err e) (ok a) → ⊥
err-ok h = cc
