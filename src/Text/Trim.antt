-- ===== src/Text/Trim.antt =====
-- `strings.Trim` and its kin: a text that has nothing to trim is left as it is.
use mathlib.Core.List.{reverse, reverse_aux, reverse-append, reverse-reverse}
use bongsu.Prelude.{
  ℕ, ◌≡◌, refl, sym, ap, ◌∙◌, Bool, true, false, not, [], ◌∷◌, ◌++◌, arith, all_of, and_split,
  drop_while,
}
use bongsu.Text.{Bytes}

module _ (p : ℕ → Bool) where
  -- Both ends are trimmed of the bytes that pass the test.
  abbrev pub trim : Bytes → Bytes
  trim s = reverse (drop_while p (reverse (drop_while p s)))

  abbrev pub keeps : Bytes → Bool
  keeps = all_of (λ (c : ℕ). not (p c))

  drop_while-keeps : (s : Bytes) → keeps s ≡ true → drop_while p s ≡ s
  unfolding drop_while
  drop_while-keeps [] h = refl
  drop_while-keeps (c ∷ s) h =
      let (here, rest) = and_split (not (p c)) h in
      let stays : p c ≡ false = ground (arith, here) in rw stays refl

  keeps-reverse_aux :
      (s r : Bytes) → keeps s ≡ true → keeps r ≡ true → keeps (reverse_aux s r) ≡ true
  keeps-reverse_aux [] r h k = k
  keeps-reverse_aux (c ∷ s) r h k =
      let (here, rest) = and_split (not (p c)) h in
      keeps-reverse_aux s (c ∷ r) rest (rw (here, k) refl)

  drop_while-stays : (d : ℕ) (s : Bytes) → p d ≡ false → drop_while p (d ∷ s) ≡ d ∷ s
  unfolding drop_while
  drop_while-stays d s stays = rw stays refl

  -- A text that ends with a byte that stays.
  trim_end :
      (s : Bytes) (d : ℕ)
      → p d ≡ false
      → reverse (drop_while p (reverse (s ++ d ∷ []))) ≡ s ++ d ∷ []
  trim_end s d stays =
      ap (λ r. reverse (drop_while p r)) (reverse-append s (d ∷ []))
      ∙ ap reverse (drop_while-stays d (reverse s) stays)
      ∙ ap reverse (sym (reverse-append s (d ∷ [])))
      ∙ reverse-reverse (s ++ d ∷ [])

  -- A text between two bytes that stay.
  pub trim-between :
      (c : ℕ) (s : Bytes) (d : ℕ)
      → p c ≡ false
      → p d ≡ false
      → trim (c ∷ s ++ d ∷ []) ≡ c ∷ s ++ d ∷ []
  trim-between c s d first last =
      ap (λ r. reverse (drop_while p (reverse r))) (drop_while-stays c (s ++ d ∷ []) first)
      ∙ trim_end (c ∷ s) d last

  pub trim-keeps : (s : Bytes) → keeps s ≡ true → trim s ≡ s
  trim-keeps s h =
      ap (λ r. reverse (drop_while p (reverse r))) (drop_while-keeps s h)
      ∙ ap reverse (drop_while-keeps (reverse s) (keeps-reverse_aux s [] h refl))
      ∙ reverse-reverse s

  drop_while-goes : (d : ℕ) (s : Bytes) → p d ≡ true → drop_while p (d ∷ s) ≡ drop_while p s
  unfolding drop_while
  drop_while-goes d s goes = rw goes refl

  trim_last :
      (s : Bytes) (d : ℕ)
      → keeps s ≡ true
      → p d ≡ true
      → reverse (drop_while p (reverse (s ++ d ∷ []))) ≡ s
  trim_last s d h goes =
      ap (λ r. reverse (drop_while p r)) (reverse-append s (d ∷ []))
      ∙ ap reverse (drop_while-goes d (reverse s) goes)
      ∙ ap reverse (drop_while-keeps (reverse s) (keeps-reverse_aux s [] h refl))
      ∙ reverse-reverse s

  drop_first :
      (s : Bytes) (d : ℕ)
      → keeps s ≡ true
      → p d ≡ true
      → reverse (drop_while p (reverse (drop_while p (s ++ d ∷ []))))
        ≡ reverse (drop_while p (reverse (s ++ d ∷ [])))
  unfolding drop_while
  drop_first [] d h goes = rw goes refl
  drop_first (c ∷ s) d h goes =
      let (here, rest) = and_split (not (p c)) h in
      let stays : p c ≡ false = ground (arith, here) in
      ap (λ r. reverse (drop_while p (reverse r))) (drop_while-stays c (s ++ d ∷ []) stays)

  -- A text between two bytes that are trimmed.
  pub trim-around : (s : Bytes) (d : ℕ) → keeps s ≡ true → p d ≡ true → trim (d ∷ s ++ d ∷ []) ≡ s
  trim-around s d h goes =
      ap (λ r. reverse (drop_while p (reverse r))) (drop_while-goes d (s ++ d ∷ []) goes)
      ∙ drop_first s d h goes
      ∙ trim_last s d h goes
