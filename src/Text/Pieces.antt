-- ===== src/Text/Pieces.antt =====
-- Texts put together from pieces, and the cuts that give the pieces back.
use mathlib.Core.List.{reverse, reverse-append}
use bongsu.Prelude.{
  ℕ, suc, ◌+◌, ◌≡◌, refl, ap, Bool, true, false, not, none, some, List, [], ◌∷◌, ◌++◌, arith, ◌==◌,
  length, take, drop, all_of, Bool-cases, inl, inr, and_split,
}
use bongsu.Text.{Bytes, has_prefix, has_suffix, split_when, split_on}
use bongsu.Vercmp.Chars.{index_byte, last_index_byte}

-- None of the bytes is `b`.
abbrev pub lacks : ℕ → Bytes → Bool
lacks b = all_of (λ c. not (c == b))

pub lacks-append :
    (b : ℕ) (s t : Bytes) → lacks b s ≡ true → lacks b t ≡ true → lacks b (s ++ t) ≡ true
lacks-append b [] t p q = q
lacks-append b (c ∷ s) t p q =
    let (here, rest) = and_split (not (c == b)) p in rw (here, lacks-append b s t rest q)

module _ (p : ℕ → Bool) where
  split_when-parts :
      (s : Bytes) → (part : Bytes) × (parts : List Bytes) × (split_when p s ≡ part ∷ parts)
  unfolding split_when
  split_when-parts [] = ([], [], refl)
  split_when-parts (c ∷ s) =
      let (part, parts, e) = split_when-parts s in
      elim (Bool-cases (p c)) [
        | inl h ↦ ([], part ∷ parts, rw e (rw h))
        | inr h ↦ (c ∷ part, parts, rw e (rw h))
      ]

  split_when-lacks : (s : Bytes) → all_of (λ c. not (p c)) s ≡ true → split_when p s ≡ s ∷ []
  unfolding split_when
  split_when-lacks [] h = refl
  split_when-lacks (c ∷ s) h =
      let (here, rest) = and_split (not (p c)) h in
      let miss : p c ≡ false = ground arith in rw (split_when-lacks s rest) (rw miss)

  split_when-append :
      (s : Bytes) (b : ℕ) (t : Bytes)
      → p b ≡ true
      → all_of (λ c. not (p c)) s ≡ true
      → split_when p (s ++ b ∷ t) ≡ s ∷ split_when p t
  unfolding split_when
  split_when-append [] b t hit h = let (part, parts, e) = split_when-parts t in rw e (rw hit)
  split_when-append (c ∷ s) b t hit h =
      let (here, rest) = and_split (not (p c)) h in
      let miss : p c ≡ false = ground arith in rw (split_when-append s b t hit rest) (rw miss)

same_byte : (b : ℕ) → (b == b) ≡ true
same_byte b = ground arith

pub split_on-lacks : (b : ℕ) (s : Bytes) → lacks b s ≡ true → split_on b s ≡ s ∷ []
unfolding split_on
split_on-lacks b s h = split_when-lacks (λ c. c == b) s h

pub split_on-append :
    (b : ℕ) (s t : Bytes) → lacks b s ≡ true → split_on b (s ++ b ∷ t) ≡ s ∷ split_on b t
unfolding split_on
split_on-append b s t h = split_when-append (λ c. c == b) s b t (same_byte b) h

pub index_byte-lacks : (b : ℕ) (s : Bytes) → lacks b s ≡ true → index_byte s b ≡ none
unfolding index_byte
index_byte-lacks b [] h = refl
index_byte-lacks b (c ∷ s) h = ground (arith, index_byte-lacks b s)

pub index_byte-append :
    (b : ℕ) (s t : Bytes) → lacks b s ≡ true → index_byte (s ++ b ∷ t) b ≡ some (length s)
unfolding index_byte
index_byte-append b [] t h = ground arith
index_byte-append b (c ∷ s) t h = ground (arith, index_byte-append b s t)

pub take-length : (s t : Bytes) → take (length s) (s ++ t) ≡ s
take-length [] t = refl
take-length (c ∷ s) t = ap (◌∷◌ c) (take-length s t)

pub drop-length : (s t : Bytes) (c : ℕ) → drop (suc (length s)) (s ++ c ∷ t) ≡ t
drop-length [] t c = refl
drop-length (d ∷ s) t c = drop-length s t c

last_index_byte-lacks : (b : ℕ) (s : Bytes) → lacks b s ≡ true → last_index_byte s b ≡ none
unfolding last_index_byte
last_index_byte-lacks b [] h = refl
last_index_byte-lacks b (c ∷ s) h = ground (arith, last_index_byte-lacks b s)

pub last_index_byte-append :
    (b : ℕ) (s t : Bytes) → lacks b t ≡ true → last_index_byte (s ++ b ∷ t) b ≡ some (length s)
unfolding last_index_byte
last_index_byte-append b [] t h = rw (last_index_byte-lacks b t h) (ground arith)
last_index_byte-append b (c ∷ s) t h = rw (last_index_byte-append b s t h) refl

pub length-append : (s t : Bytes) → length (s ++ t) ≡ length s + length t
length-append [] t = omega arith
length-append (c ∷ s) t = omega (arith, length-append s t)

has_prefix-append : (p s : Bytes) → has_prefix (p ++ s) p ≡ true
unfolding has_prefix
has_prefix-append [] s = refl
has_prefix-append (c ∷ p) s = ground (arith, has_prefix-append p s)

pub has_suffix-append : (s p : Bytes) → has_suffix (s ++ p) p ≡ true
unfolding has_suffix
has_suffix-append s p = rw (reverse-append s p) (has_prefix-append (reverse p) (reverse s))
