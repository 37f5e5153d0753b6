-- ===== src/ResponseCache/Laws.antt =====
-- The cache stays small, and gives no answer that is old or was replaced.
use bongsu.Prelude.{
  ℕ, ◌+◌, ◌≤◌, ◌≡◌, refl, ap, subst, sym, ◌∙◌, Bool, false, not, Option, none, some, List, [], ◌∷◌,
  arith, length, ltb, ◌==◌, if◌then◌else◌, Bool-cases, inl, inr,
}
use bongsu.Prelude.Sort.{filter}
use bongsu.Text.{Bytes, equal, equal_iff}
use bongsu.Text.Dict.{Dict, get, delete}
use bongsu.ResponseCache.{
  ResponseCacheEntry, ResponseCache, unless_expired, cached, bounded, put, invalidate,
}

-- What is done to the cache.
pub data Event {ℓ} (V : Type ℓ) : Type ℓ where
  puts : Bytes → V → ℕ → Event V
  invalidates : Event V

length-filter-le : {A : Type 0} (p : A → Bool) (xs : List A) → length (filter p xs) ≤ length xs
unfolding filter
length-filter-le p [] = omega arith
length-filter-le p (x ∷ xs) = ground (arith, length-filter-le p xs)

module _ {V : Type 0} where
  unfoldable pub step : Event V → ResponseCache V → ResponseCache V
  unfolding put invalidate
  step (puts key value now) c = put key value now c
  step invalidates c = invalidate c

  unfoldable pub run : List (Event V) → ResponseCache V → ResponseCache V
  unfolding step
  run [] c = c
  run (e ∷ es) c = run es (step e c)

  -- The answer put last under a key since the cache was invalidated, and its time.
  abbrev pub latest_step : Bytes → Event V → Option (V × ℕ) → Option (V × ℕ)
  latest_step key invalidates acc = none
  latest_step key (puts k value now) acc = if equal k key then some (value, now) else acc

  abbrev pub latest : Bytes → List (Event V) → Option (V × ℕ) → Option (V × ℕ)
  latest key [] acc = acc
  latest key (e ∷ es) acc = latest key es (latest_step key e acc)

  -- An entry that is held is the latest.
  abbrev IsLatest : Bytes → ResponseCache V → Option (V × ℕ) → Type 0
  IsLatest key c acc =
      (e : ResponseCacheEntry V)
      → get key c.entries ≡ some e
      → (t : ℕ) × (acc ≡ some (e.value, t)) × (e.expires ≡ t + c.ttl)

  get-delete_other :
      (key k : Bytes) (m : Dict (ResponseCacheEntry V))
      → equal k key ≡ false
      → get key (delete k m) ≡ get key m
  unfolding get delete filter
  get-delete_other key k [] h = refl
  get-delete_other key k ((j, e) ∷ m) h = elim (Bool-cases (equal j k)) [
    | inl same ↦ let ih = get-delete_other key k m h in rw (same, (equal_iff j k).0 same) rw h ih
    | inr other ↦ rw other ground (arith, get-delete_other key k m h)
  ]

  get-bounded :
      (key : Bytes) (m : Dict (ResponseCacheEntry V)) (e : ResponseCacheEntry V)
      → get key (bounded m) ≡ some e
      → get key m ≡ some e
  unfolding get
  get-bounded key m e h = elim (Bool-cases (ltb 256 (length m))) [
    | inl full ↦ absurd (cc (h, full))
    | inr room ↦ rw room at h
  ]

  bounded-small : (m : Dict (ResponseCacheEntry V)) → length (bounded m) ≤ 256
  bounded-small m = elim (Bool-cases (ltb 256 (length m))) [
    | inl full ↦ rw full omega arith
    | inr room ↦ rw room ground (arith, room)
  ]

  step-ttl : (e : Event V) (c : ResponseCache V) → (step e c).ttl ≡ c.ttl
  unfolding step put invalidate
  step-ttl (puts key value now) c = ground arith
  step-ttl invalidates c = ground arith

  none-some : {e : ResponseCacheEntry V} → ◌≡◌ {A = Option (ResponseCacheEntry V)} none (some e) → ⊥
  none-some h = cc

  some-injective : {a b : ResponseCacheEntry V} → some a ≡ some b → a ≡ b
  some-injective h = cc

  -- The entries behind a `put` of another key, or of this one.
  put-IsLatest :
      (key k : Bytes) (value : V) (now : ℕ) (c : ResponseCache V) (acc : Option (V × ℕ))
      → IsLatest key c acc
      → IsLatest key
          (record c {
            entries =
                (k, record { value = value; expires = now + c.ttl }) ∷ delete k (bounded c.entries);
          })
          (latest_step key (puts k value now) acc)
  unfolding get
  put-IsLatest key k value now c acc h e g = elim (Bool-cases (equal k key)) [
    | inl same ↦
        let it = some-injective (rw same at g) in
        subst
          (λ (e : ResponseCacheEntry V).
            (t : ℕ) × ((if equal k key then some (value, now) else acc) ≡ some (e.value, t))
            × (e.expires ≡ t + c.ttl))
          it (now, rw same refl, refl)
    | inr other ↦
        let kept =
          get-bounded key c.entries e
            (sym (get-delete_other key k (bounded c.entries) other) ∙ (rw other at g)) in
        let (t, a, b) = h e kept in (t, rw other a, b)
  ]

  step-IsLatest :
      (key : Bytes) (e : Event V) (c : ResponseCache V) (acc : Option (V × ℕ))
      → (c.ttl == 0) ≡ false
      → IsLatest key c acc
      → IsLatest key (step e c) (latest_step key e acc)
  unfolding step put invalidate get
  step-IsLatest key invalidates c acc on h = rw (invalidate, on) λ e g. absurd (none-some g)
  step-IsLatest key (puts k value now) c acc on h =
      rw (put, on) (put-IsLatest key k value now c acc h)

  run-IsLatest :
      (key : Bytes) (es : List (Event V)) (c : ResponseCache V) (acc : Option (V × ℕ))
      → (c.ttl == 0) ≡ false
      → IsLatest key c acc
      → IsLatest key (run es c) (latest key es acc)
  unfolding run
  run-IsLatest key [] c acc on h = h
  run-IsLatest key (e ∷ es) c acc on h =
      run-IsLatest key es (step e c) (latest_step key e acc)
        (ap (λ (n : ℕ). n == 0) (step-ttl e c) ∙ on) (step-IsLatest key e c acc on h)

  step-small :
      (e : Event V) (c : ResponseCache V) → length c.entries ≤ 257 → length (step e c).entries ≤ 257
  unfolding step put invalidate delete
  step-small (puts k value now) c h = elim (Bool-cases (c.ttl == 0)) [
    | inl off ↦ rw (put, off) h
    | inr on ↦
        rw (put, on) omega
          (
            arith,
            length-filter-le (λ (e : Bytes × ResponseCacheEntry V). not (equal e.0 k))
                (bounded c.entries),
            bounded-small c.entries,
          )
  ]
  step-small invalidates c h = ground (arith, h)

  pub run-small :
      (es : List (Event V)) (c : ResponseCache V)
      → length c.entries ≤ 257
      → length (run es c).entries ≤ 257
  unfolding run
  run-small [] c h = h
  run-small (e ∷ es) c h = run-small es (step e c) (step-small e c h)

  run-ttl : (es : List (Event V)) (c : ResponseCache V) → (run es c).ttl ≡ c.ttl
  unfolding run
  run-ttl [] c = refl
  run-ttl (e ∷ es) c = run-ttl es (step e c) ∙ step-ttl e c

  none-value : {x : V} → ◌≡◌ {A = Option V} none (some x) → ⊥
  none-value h = cc

  value-injective : {x y : V} → ◌≡◌ {A = Option V} (some x) (some y) → x ≡ y
  value-injective h = cc

  -- An entry that is given out is in its time.
  given_out :
      (now : ℕ) (o : Option (ResponseCacheEntry V)) (v : V)
      → unless_expired now o ≡ some v
      → (e : ResponseCacheEntry V) × (o ≡ some e) × (e.value ≡ v) × (now ≤ e.expires)
  given_out now none v h = absurd (none-value h)
  given_out now (some e) v h = elim (Bool-cases (ltb e.expires now)) [
    | inl old ↦ absurd (none-value (rw old at h))
    | inr fresh ↦ (e, refl, value-injective (rw fresh at h), ground (arith, fresh))
  ]

-- After whatever puts and invalidations, on a new cache, an answer that `get` gives for a key is
-- the one put last under this key, no invalidation came behind it, and no more time than the time
-- to live has passed since.
pub cached-latest :
    {V : Type 0} (ttl : ℕ) (es : List (Event V)) (now : ℕ) (key : Bytes) (v : V)
    → cached (run es (record { ttl = ttl; entries = [] })) now key ≡ some v
    → (t : ℕ) × (latest key es none ≡ some (v, t)) × (now ≤ t + ttl)
unfolding cached get
cached-latest ttl es now key v h =
    let c = run es (record { ttl = ttl; entries = [] }) in
    let same = run-ttl es (record { ttl = ttl; entries = [] }) in
    elim (Bool-cases (ttl == 0)) [
      | inl off ↦ absurd (none-value (rw (cached, same, off) at h))
      | inr on ↦
          let (e, held, value, fresh) =
            given_out now (get key c.entries) v (rw (cached, same, on) at h) in
          let (t, a, b) =
            run-IsLatest key es (record { ttl = ttl; entries = [] }) none on
              (λ e g. absurd (none-some g)) e held in
          (t, rw (sym value) a, omega (arith, b, fresh, same))
    ]
