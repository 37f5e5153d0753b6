-- ===== src/Text/Utf8.antt =====
-- The byte sequences that are UTF-8, by RFC 3629: how many bytes follow a first byte, and within
-- which bounds the second one stands.
use bongsu.Prelude.{ℕ, zero, suc, Bool, true, false, ◌&&◌, [], ◌∷◌, ltb, ◌==◌, if◌then◌else◌}
use bongsu.Text.{Bytes, within}

-- Whether the byte begins a character, how many bytes follow, and the bounds of the next one.
unfoldable first_byte : ℕ → Bool × ℕ × ℕ × ℕ
first_byte c =
    if ltb c 128
    then (true, 0, 128, 191)
    else if within 194 223 c
    then (true, 1, 128, 191)
    else if c == 224
    then (true, 2, 160, 191)
    else if c == 237
    then (true, 2, 128, 159)
    else if within 225 239 c
    then (true, 2, 128, 191)
    else if c == 240
    then (true, 3, 144, 191)
    else if within 241 243 c
    then (true, 3, 128, 191)
    else if c == 244
    then (true, 3, 128, 143)
    else (false, 0, 128, 191)

unfoldable pub utf8_from : ℕ → ℕ → ℕ → Bytes → Bool
unfolding first_byte
utf8_from zero low high [] = true
utf8_from (suc n) low high [] = false
utf8_from zero low high (c ∷ s) =
    let (begins, more, next_low, next_high) = first_byte c in
    let rest = utf8_from more next_low next_high s in begins && rest
utf8_from (suc n) low high (c ∷ s) = let rest = utf8_from n 128 191 s in within low high c && rest

unfoldable pub is_utf8 : Bytes → Bool
unfolding utf8_from
is_utf8 s = utf8_from 0 128 191 s
