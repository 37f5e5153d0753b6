-- ===== src/Vercmp/Apk/Scan.antt =====
-- The tokens of a valid version, and how far the scanner runs.
use bongsu.Prelude.{
  ℕ, zero, suc, ◌+◌, ◌*◌, ◌≤◌, ◌<◌, ◌≡◌, refl, ap, ◌∙◌, Bool, true, false, ◌&&◌, Option, none, some,
  List, [], ◌∷◌, arith, ltb, if◌then◌else◌, length, drop, take_while, drop_while,
  length-drop_while-le, length-drop-le, Bool-cases, Option-cases, inl, inr,
}
use bongsu.Text.{Bytes, is_empty, has_prefix}
use bongsu.Vercmp.Chars.{is_digit}
use bongsu.Vercmp.Apk.{bound, apk_valid_loop, apk_valid}
use bongsu.Vercmp.Apk.Scanner.{
  TokenType, end, digit_or_zero, digit, letter, suffix, suffix_no, revision, invalid, ApkToken,
  ApkScanner, new_apk_scanner, after_number, after_letter, after_suffix_no, best_suffix,
  apk_suffixes, scan_suffix_name, Scanned, next_number, next_letter, next_suffix, next_suffix_no,
  next_revision, next_by, next, is_end,
}

after_number-bound : (s : Bytes) → bound (after_number s) ≤ 2 * length s
unfolding after_number
after_number-bound [] = omega arith
after_number-bound (c ∷ s) = ground arith

after_letter-bound : (s : Bytes) → bound (after_letter s) ≤ 2 * length s
unfolding after_letter
after_letter-bound [] = omega arith
after_letter-bound (c ∷ s) = ground arith

after_suffix_no-bound : (s : Bytes) → bound (after_suffix_no s) ≤ 2 * length s
unfolding after_suffix_no
after_suffix_no-bound [] = omega arith
after_suffix_no-bound (c ∷ s) = ground arith

drop_while-lt :
    (p : ℕ → Bool) (s : Bytes)
    → is_empty (take_while p s) ≡ false
    → length (drop_while p s) < length s
unfolding take_while drop_while
drop_while-lt p [] h = cc
drop_while-lt p (c ∷ s) h = ground (arith, length-drop_while-le p s)

-- A token was read: the bound is lower.
abbrev Lowers : ℕ → Scanned → Type 0
Lowers n none = Unit
Lowers n (some (t, sc)) = bound sc < n

Lowers-le : {m n : ℕ} (r : Scanned) → m ≤ n → Lowers m r → Lowers n r
Lowers-le none h l = tt
Lowers-le (some (t, sc)) h l = omega arith

next_number-Lowers : (s : Bytes) → Lowers (2 * length s) (next_number s)
unfolding next_number
next_number-Lowers s =
    ground (arith, after_number-bound (drop_while is_digit s), drop_while-lt is_digit s)

next_letter-Lowers : (s : Bytes) → Lowers (2 * length s) (next_letter s)
unfolding next_letter
next_letter-Lowers [] = tt
next_letter-Lowers (c ∷ s) = ground (arith, after_letter-bound s)

next_revision-Lowers : (s : Bytes) → Lowers (2 * length s) (next_revision s)
unfolding next_revision
next_revision-Lowers [] = tt
next_revision-Lowers (c ∷ s) = ground (arith, length-drop_while-le is_digit s)

next_suffix_no-Lowers : (s : Bytes) → Lowers (2 * length s + 1) (next_suffix_no s)
unfolding next_suffix_no
next_suffix_no-Lowers s =
    omega (arith, after_suffix_no-bound (drop_while is_digit s), length-drop_while-le is_digit s)

-- A suffix that is found is not empty.
best_suffix-pos :
    (rest : Bytes) (names : List Bytes) (idx : ℕ) (best_idx : Option ℕ) (best_len : ℕ)
    → ((i : ℕ) → best_idx ≡ some i → 0 < best_len)
    → (i : ℕ) → (best_suffix rest names idx best_idx best_len).0 ≡ some i
    → 0 < (best_suffix rest names idx best_idx best_len).1
unfolding best_suffix
best_suffix-pos rest [] idx best_idx best_len h i e = h i e
best_suffix-pos rest (name ∷ names) idx best_idx best_len h i e =
    let better = ltb best_len (length name) && has_prefix rest name in
    best_suffix-pos rest names (suc idx) (if better then some idx else best_idx)
      (if better then length name else best_len) (λ j k. ground (arith, h j)) i e

length-drop-lt : (n : ℕ) (s : Bytes) → is_empty s ≡ false → 0 < n → length (drop n s) < length s
length-drop-lt zero s h k = absurd (omega arith)
length-drop-lt (suc n) [] h k = cc
length-drop-lt (suc n) (c ∷ s) h k = omega (arith, length-drop-le n s)

-- What `scanSuffixName` leaves unread is shorter.
scan_suffix_name-lt :
    (s : Bytes) {i : ℕ} {rest : Bytes}
    → is_empty s ≡ false
    → scan_suffix_name s ≡ some (i, rest)
    → length rest < length s
unfolding scan_suffix_name
scan_suffix_name-lt s {i} {rest} h e =
    found_lt (best_suffix s apk_suffixes 0 none 0)
      (best_suffix-pos s apk_suffixes 0 none 0 (λ j k. absurd (cc))) e
  where
    found_lt :
        (found : Option ℕ × ℕ)
        → ((j : ℕ) → found.0 ≡ some j → 0 < found.1)
        → (let r : Option (ℕ × Bytes) = elim found.0 [
          | none ↦ none
          | some idx ↦ some (idx, drop found.1 s)
        ] in
            r ≡ some (i, rest))
        → length rest < length s
    found_lt (none, n) pos e = cc
    found_lt (some j, n) pos e = let shorter = length-drop-lt n s h (pos j refl) in ground arith

next_suffix-Lowers : (s : Bytes) → is_empty s ≡ false → Lowers (2 * length s) (next_suffix s)
unfolding next_suffix
next_suffix-Lowers s h = elim (Option-cases (scan_suffix_name s)) [
  | inl e ↦ rw (e, next_suffix, Lowers) tt
  | inr ((i, rest), e) ↦ rw (e, next_suffix, Lowers) (omega (arith, scan_suffix_name-lt s h e))
]

next_by-Lowers :
    (t : TokenType) (s : Bytes)
    → is_empty s ≡ false
    → Lowers (bound (record { unread = s; tok = t })) (next_by t s)
unfolding next_by
next_by-Lowers end s h = tt
next_by-Lowers invalid s h = tt
next_by-Lowers digit_or_zero s h = Lowers-le _ (omega arith) (next_number-Lowers s)
next_by-Lowers digit s h = Lowers-le _ (omega arith) (next_number-Lowers s)
next_by-Lowers letter s h = Lowers-le _ (omega arith) (next_letter-Lowers s)
next_by-Lowers suffix s h = Lowers-le _ (omega arith) (next_suffix-Lowers s h)
next_by-Lowers suffix_no s h = next_suffix_no-Lowers s
next_by-Lowers revision s h = Lowers-le _ (omega arith) (next_revision-Lowers s)

-- The scanner `sc` yields the tokens `ts` and then reaches the end.
pub data Scans : ApkScanner → List ApkToken → Type 0 where
  stop :
      {sc sc' : ApkScanner} {t : ApkToken}
      → next sc ≡ some (t, sc')
      → is_end t.typ ≡ true
      → Scans sc []
  more :
      {sc sc' : ApkScanner} {t : ApkToken} {ts : List ApkToken}
      → next sc ≡ some (t, sc')
      → is_end t.typ ≡ false
      → Scans sc' ts
      → Scans sc (t ∷ ts)

-- `next` yields another token than the end only where it lowers the bound.
pub next-lowers :
    (sc : ApkScanner) {sc' : ApkScanner} {t : ApkToken}
    → next sc ≡ some (t, sc')
    → is_end t.typ ≡ false
    → bound sc' < bound sc
unfolding next
next-lowers sc {sc'} {t} e h = elim (Bool-cases (is_empty sc.unread)) [
  | inl x ↦ cc (h, rw (x, next) at e)
  | inr x ↦ rw (rw x at e) at (next_by-Lowers sc.tok sc.unread x)
]

-- The loop of `apkValid` returns a result, from every state of the scanner, with more fuel than
-- its `bound`.
pub apk_valid_loop-returns :
    (fuel : ℕ) (sc : ApkScanner) → bound sc < fuel → (b : Bool) × (apk_valid_loop fuel sc ≡ some b)
unfolding apk_valid_loop
apk_valid_loop-returns zero sc h = absurd (omega arith)
apk_valid_loop-returns (suc fuel) sc h = elim (Option-cases (next sc)) [
  | inl e ↦ (false, rw (e, apk_valid_loop))
  | inr ((t, sc'), e) ↦ elim (Bool-cases (is_end t.typ)) [
    | inl x ↦ (true, rw (e, apk_valid_loop) (rw x))
    | inr x ↦
        let (b, r) = apk_valid_loop-returns fuel sc' (omega (arith, next-lowers sc e x)) in
        (b, rw (e, apk_valid_loop) (rw (x, r)))
  ]
]

-- The tokens before the end, or before an error.
unfoldable pub apk_tokens_loop : ℕ → ApkScanner → List ApkToken
apk_tokens_loop zero sc = []
apk_tokens_loop (suc fuel) sc = elim (next sc) [
  | none ↦ []
  | some (t, sc') ↦ let rest = apk_tokens_loop fuel sc' in if is_end t.typ then [] else t ∷ rest
]

-- Where `apkValid` returns true the scanner yields these tokens up to the end.
apk_valid_loop-Scans :
    (fuel : ℕ) (sc : ApkScanner)
    → apk_valid_loop fuel sc ≡ some true
    → Scans sc (apk_tokens_loop fuel sc)
unfolding apk_valid_loop apk_tokens_loop
apk_valid_loop-Scans zero sc h = cc
apk_valid_loop-Scans (suc fuel) sc h = elim (Option-cases (next sc)) [
  | inl e ↦ cc (rw (e, apk_valid_loop) at h)
  | inr ((t, sc'), e) ↦
      rw (e, apk_tokens_loop)
        (elim (Bool-cases (is_end t.typ)) [
          | inl x ↦ rw x (stop e x)
          | inr x ↦
              rw x
                (more e x (apk_valid_loop-Scans fuel sc' (rw x at (rw (e, apk_valid_loop) at h))))
        ])
]

unfoldable pub apk_tokens : Bytes → List ApkToken
apk_tokens s = apk_tokens_loop (suc (bound (new_apk_scanner s))) (new_apk_scanner s)

pub apk_valid-Scans : (s : Bytes) → apk_valid s ≡ true → Scans (new_apk_scanner s) (apk_tokens s)
unfolding apk_valid apk_tokens
apk_valid-Scans s h =
    apk_valid_loop-Scans _ (new_apk_scanner s)
      (elim (Option-cases (apk_valid_loop (suc (bound (new_apk_scanner s))) (new_apk_scanner s))) [
        | inl e ↦ cc (rw (e, apk_valid) at h)
        | inr (b, e) ↦ e ∙ ap some (rw (e, apk_valid) at h)
      ])
