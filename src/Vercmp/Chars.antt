-- ===== src/Vercmp/Chars.antt =====
-- internal/server/vercmp/rpm.go: the byte tests and searches that the comparators share.
use bongsu.Prelude.{
  ℕ, zero, suc, ◌≡◌, Bool, ◌||◌, Option, none, some, [], ◌∷◌, ◌++◌, ap, arith, ◌==◌, if◌then◌else◌,
  take, drop,
}
use bongsu.Text.{Bytes, within}

unfoldable pub is_digit : ℕ → Bool
is_digit c = within b'0' b'9' c

unfoldable pub is_alpha : ℕ → Bool
is_alpha c = within b'a' b'z' c || within b'A' b'Z' c

unfoldable pub is_alnum : ℕ → Bool
unfolding is_digit is_alpha
is_alnum c = is_digit c || is_alpha c

-- `none` is the result -1.
unfoldable pub index_byte : Bytes → ℕ → Option ℕ
index_byte [] b = none
index_byte (c ∷ s) b =
    let rest = index_byte s b in
    if c == b then some 0 else elim rest [ none ↦ none | some i ↦ some (suc i) ]

unfoldable pub last_index_byte : Bytes → ℕ → Option ℕ
last_index_byte [] b = none
last_index_byte (c ∷ s) b = elim (last_index_byte s b) [
  | none ↦ if c == b then some 0 else none
  | some i ↦ some (suc i)
]

-- An index that is found is one where the byte stands.
pub index_byte-splits :
    (s : Bytes) (b : ℕ) {i : ℕ} → index_byte s b ≡ some i → take i s ++ (b ∷ drop (suc i) s) ≡ s
unfolding index_byte
index_byte-splits [] b h = ground arith
index_byte-splits (c ∷ s) b {i = zero} h = ground arith
index_byte-splits (c ∷ s) b {i = suc i} h = ap (◌∷◌ c) (index_byte-splits s b (ground arith))
