-- ===== src/Text.antt =====
-- Go strings as lists of bytes, and what the code uses of the package `strings`.
-- `TrimSpace`, `ToLower` and `EqualFold` are those of ASCII text: of the white space and the
-- letters beyond it Go also knows, none is a byte below 128.
pub mod Order
pub mod Distinct
pub mod Pieces
pub mod Trim
pub mod Decimal
pub mod Dict
pub mod Utf8
use Prim.Native.Char.{code}
use Prim.Native.String.{String}
use mathlib.Core.List.{reverse}
use bongsu.Prelude.{
  ℕ, ◌+◌, ◌≡◌, refl, ◌↔◌, Bool, true, false, ◌&&◌, ◌||◌, List, [], ◌∷◌, ◌++◌, map, arith, leb, ◌==◌,
  if◌then◌else◌, drop_while,
}

abbrev pub Bytes : Type 0
Bytes = List ℕ

-- The bytes of an ASCII literal.
abbrev pub codes : String → Bytes
codes String.[] = []
codes (String.◌∷◌ c s) = code c ∷ codes s

abbrev pub within : ℕ → ℕ → ℕ → Bool
within lo hi c = leb lo c && leb c hi

-- `==` of strings.
unfoldable pub equal : Bytes → Bytes → Bool
equal (c ∷ s) (d ∷ t) = c == d && equal s t
equal [] [] = true
equal s t = false

-- Strings are equal to the code when they are equal.
pub equal_iff : (s t : Bytes) → (equal s t ≡ true) ↔ (s ≡ t)
unfolding equal
equal_iff [] t = ground arith
equal_iff (c ∷ s) [] = ground arith
equal_iff (c ∷ s) (d ∷ t) = ground (arith, equal_iff s t)

pub equal_self : (a : Bytes) → equal a a ≡ true
equal_self a = (equal_iff a a).1 refl

pub equal_sym : (s t : Bytes) → equal s t ≡ equal t s
unfolding equal
equal_sym [] [] = refl
equal_sym [] (d ∷ t) = refl
equal_sym (c ∷ s) [] = refl
equal_sym (c ∷ s) (d ∷ t) = ground (arith, equal_sym s t)

-- `s == ""`.
abbrev pub is_empty : Bytes → Bool
is_empty [] = true
is_empty (c ∷ s) = false

abbrev pub is_space : ℕ → Bool
is_space c = within 9 13 c || c == b' '

-- `strings.TrimSpace`.
unfoldable pub trim_space : Bytes → Bytes
unfolding drop_while
trim_space s = reverse (drop_while is_space (reverse (drop_while is_space s)))

abbrev pub lower_byte : ℕ → ℕ
lower_byte c = if within b'A' b'Z' c then c + 32 else c

-- `strings.ToLower`.
unfoldable pub to_lower : Bytes → Bytes
to_lower s = map lower_byte s

-- `strings.EqualFold`.
unfoldable pub equal_fold : Bytes → Bytes → Bool
unfolding to_lower equal
equal_fold s t = equal (to_lower s) (to_lower t)

-- `strings.HasPrefix(s, prefix)`.
unfoldable pub has_prefix : Bytes → Bytes → Bool
has_prefix s [] = true
has_prefix [] (c ∷ p) = false
has_prefix (d ∷ s) (c ∷ p) = d == c && has_prefix s p

-- `strings.Contains(s, sub)`.
unfoldable pub contains : Bytes → Bytes → Bool
unfolding has_prefix
contains [] sub = has_prefix [] sub
contains (c ∷ s) sub = let rest = contains s sub in has_prefix (c ∷ s) sub || rest

-- `strings.HasSuffix(s, suffix)`.
unfoldable pub has_suffix : Bytes → Bytes → Bool
unfolding has_prefix
has_suffix s suffix = has_prefix (reverse s) (reverse suffix)

-- `switch s { case options... }`.
unfoldable pub one_of : Bytes → List Bytes → Bool
unfolding equal
one_of s [] = false
one_of s (o ∷ options) = equal s o || one_of s options

-- `strings.FieldsFunc` with empty parts kept: the parts between the bytes that pass the test.
unfoldable pub split_when : (ℕ → Bool) → Bytes → List Bytes
split_when p [] = [] ∷ []
split_when p (c ∷ s) = elim (split_when p s) [
  | [] ↦ []
  | part ∷ parts ↦ if p c then [] ∷ part ∷ parts else (c ∷ part) ∷ parts
]

-- `strings.Split(s, sep)` at a separator of one byte.
unfoldable pub split_on : ℕ → Bytes → List Bytes
unfolding split_when
split_on sep s = split_when (λ c. c == sep) s

unfoldable pub drop_empty : List Bytes → List Bytes
drop_empty [] = []
drop_empty (s ∷ ss) = let rest = drop_empty ss in if is_empty s then rest else s ∷ rest

-- `strings.Fields`.
unfoldable pub fields : Bytes → List Bytes
unfolding split_when drop_empty
fields s = drop_empty (split_when is_space s)

-- `strings.Join(ss, sep)` with a separator of one byte.
unfoldable pub join : ℕ → List Bytes → Bytes
join sep [] = []
join sep (s ∷ []) = s
join sep (s ∷ t ∷ ss) = s ++ sep ∷ join sep (t ∷ ss)
