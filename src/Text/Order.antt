-- ===== src/Text/Order.antt =====
-- The order of Go's `<=` on strings, and of `sort.Strings`.
use bongsu.Prelude.{◌≡◌, refl, Bool, true, false, ◌&&◌, ◌||◌, [], ◌∷◌, arith, ltb, ◌==◌}
use bongsu.Text.{Bytes}

unfoldable pub string_le : Bytes → Bytes → Bool
string_le [] t = true
string_le (c ∷ s) [] = false
string_le (c ∷ s) (d ∷ t) = let rest = string_le s t in ltb c d || (c == d && rest)

pub string_le_total : (a b : Bytes) → string_le a b ≡ false → string_le b a ≡ true
unfolding string_le
string_le_total [] b h = absurd (cc)
string_le_total (c ∷ s) [] h = refl
string_le_total (c ∷ s) (d ∷ t) h = ground (arith, string_le_total s t)

pub string_le_trans :
    (a b c : Bytes) → string_le a b ≡ true → string_le b c ≡ true → string_le a c ≡ true
unfolding string_le
string_le_trans [] b c h k = refl
string_le_trans (x ∷ a) [] c h k = absurd (cc)
string_le_trans (x ∷ a) (y ∷ b) [] h k = absurd (cc)
string_le_trans (x ∷ a) (y ∷ b) (z ∷ c) h k = ground (arith, string_le_trans a b c)
