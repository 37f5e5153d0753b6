-- ===== src/Scheduler/Cron/Decimal.antt =====
-- Decimal numbers in an expression.
use bongsu.Prelude.{
  ℕ, zero, suc, ◌+◌, ◌/◌, ◌%◌, ◌<◌, ◌≡◌, refl, Bool, true, false, ◌&&◌, Option, none, some, [], ◌∷◌,
  arith, ltb, ◌==◌, if◌then◌else◌,
}
use bongsu.Prelude.Int.{ℤ, pos, negsuc}
use bongsu.Text.{Bytes}
use bongsu.Text.Pieces.{lacks}
use bongsu.Vercmp.Deb.{atoi}

-- The decimal digits of a number below 100.
unfoldable pub decimal : ℕ → Bytes
decimal n = if ltb n 10 then (b'0' + n) ∷ [] else (b'0' + n / 10) ∷ (b'0' + n % 10) ∷ []

all_below : ℕ → (ℕ → Bool) → Bool
all_below zero p = true
all_below (suc n) p = p n && all_below n p

all_below_lem : (n : ℕ) (p : ℕ → Bool) (x : ℕ) → all_below n p ≡ true → x < n → p x ≡ true
unfolding all_below
all_below_lem zero p x h l = absurd (omega arith)
all_below_lem (suc n) p x h l = ground (arith, all_below_lem n p x)

is_pos : ℕ → Option ℤ → Bool
is_pos n (some (pos m)) = m == n
is_pos n _ = false

is_pos_lem : (n : ℕ) (o : Option ℤ) → is_pos n o ≡ true → o ≡ some (pos n)
unfolding is_pos
is_pos_lem n none h = absurd (cc)
is_pos_lem n (some (negsuc m)) h = absurd (cc)
is_pos_lem n (some (pos m)) h = ground arith

-- A number that is written out is read back.
atoi-decimal_table : all_below 100 (λ n. is_pos n (atoi (decimal n))) ≡ true
unfolding all_below is_pos atoi decimal
atoi-decimal_table = refl

pub atoi-decimal : (n : ℕ) → n < 100 → atoi (decimal n) ≡ some (pos n)
atoi-decimal n h = is_pos_lem n (atoi (decimal n)) (all_below_lem 100 _ n atoi-decimal_table h)

pub lacks-decimal : (b n : ℕ) → n < 100 → b < b'0' → lacks b (decimal n) ≡ true
unfolding decimal
lacks-decimal b n h l = ground arith
