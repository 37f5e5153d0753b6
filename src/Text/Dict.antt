-- ===== src/Text/Dict.antt =====
-- Go's maps with strings as keys: the assignments, the last one first.
use bongsu.Prelude.{◌≡◌, refl, Bool, not, Option, none, some, List, [], ◌∷◌, arith, if◌then◌else◌}
use bongsu.Prelude.Sort.{filter}
use bongsu.Text.{Bytes, equal}

abbrev pub Dict {ℓ} : Type ℓ → Type ℓ
Dict V = List (Bytes × V)

module _ {ℓ} {V : Type ℓ} where
  -- `v, ok := m[key]`
  unfoldable pub get : Bytes → Dict V → Option V
  unfolding equal
  get key [] = none
  get key ((k, v) ∷ m) = let rest = get key m in if equal k key then some v else rest

  -- `m[key] = v`
  abbrev pub set : Bytes → V → Dict V → Dict V
  set key v m = (key, v) ∷ m

  -- `delete(m, key)`
  unfoldable pub delete : Bytes → Dict V → Dict V
  unfolding equal filter
  delete key = filter (λ (e : Bytes × V). not (equal e.0 key))

  pub get-filter_none :
      (key : Bytes) (p : Bytes × V → Bool) (m : Dict V)
      → get key m ≡ none
      → get key (filter p m) ≡ none
  unfolding get filter
  get-filter_none key p [] h = refl
  get-filter_none key p ((k, v) ∷ m) h = ground (arith, get-filter_none key p m)

  pub get-deleted : (key : Bytes) (m : Dict V) → get key (delete key m) ≡ none
  unfolding get delete filter
  get-deleted key [] = refl
  get-deleted key ((k, v) ∷ m) = ground (arith, get-deleted key m)
