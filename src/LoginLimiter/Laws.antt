-- ===== src/LoginLimiter/Laws.antt =====
-- What a success and a failure do to the state that `blocked` reads.
use bongsu.Prelude.{
  ℕ, suc, ◌<◌, ◌≡◌, refl, sym, ap, ◌∙◌, Bool, true, false, not, Option, none, some, List, [], ◌∷◌,
  arith, if◌then◌else◌, length, Bool-cases, Option-cases, inl, inr, and_split,
}
use bongsu.Text.{Bytes, equal, equal_iff, equal_self, one_of}
use bongsu.Classify.Fixed.{distinct}
use bongsu.LoginLimiter.{
  LoginFailures, LoginLimiter, Entries, find, remove, expired, login_limiter_keys, blocked_loop,
  blocked, count_failure, count_failures, capped, fail, remove_all, success,
  login_limiter_max_entries,
}

find-remove :
    (k key : Bytes) (es : Entries)
    → find k (remove key es) ≡ (if equal key k then none else find k es)
unfolding find remove
find-remove k key [] = ground arith
find-remove k key ((j, e) ∷ es) = ground (
  arith,
  find-remove k key es,
  λ (h : equal j key ≡ true). ap (λ z. equal z k) ((equal_iff j key).0 h),
  λ (h : equal j k ≡ true) (g : equal key k ≡ true).
      (equal_iff j key).1 ((equal_iff j k).0 h ∙ sym ((equal_iff key k).0 g)),
)

remove_all-keeps :
    (k : Bytes) (keys : List Bytes) (es : Entries)
    → find k es ≡ none
    → find k (remove_all keys es) ≡ none
unfolding remove_all
remove_all-keeps k [] es h = h
remove_all-keeps k (key ∷ keys) es h =
    remove_all-keeps k keys (remove key es) (ground (arith, find-remove k key es, h))

find-removed : (key : Bytes) (es : Entries) → find key (remove key es) ≡ none
find-removed key es = ground (arith, find-remove key key es, equal_self key)

-- None of the keys has an entry.
abbrev AllMissing : Entries → List Bytes → Type 0
AllMissing es [] = Unit
AllMissing es (key ∷ keys) = (find key es ≡ none) × AllMissing es keys

AllMissing-remove_all : (keys : List Bytes) (es : Entries) → AllMissing (remove_all keys es) keys
unfolding remove_all
AllMissing-remove_all [] es = tt
AllMissing-remove_all (key ∷ keys) es = (
  remove_all-keeps key keys (remove key es) (find-removed key es),
  AllMissing-remove_all keys (remove key es),
)

blocked_loop-AllMissing :
    (max window now : ℕ) (keys : List Bytes) (es : Entries)
    → AllMissing es keys
    → blocked_loop max window now keys es ≡ (false, es)
unfolding blocked_loop
blocked_loop-AllMissing max window now [] es h = refl
blocked_loop-AllMissing max window now (key ∷ keys) es (h, hs) =
    rw (h, blocked_loop) (blocked_loop-AllMissing max window now keys es hs)

-- What `blocked` makes of the loop's result.
abbrev with_entries : LoginLimiter → Bool × Entries → Bool × LoginLimiter
with_entries l r = (r.0, record { max_failures = l.max_failures; window = l.window; entries = r.1 })

-- After a call of `success`, `blocked` is false for the same pair at any time, and changes
-- nothing.
pub blocked-success :
    (l : LoginLimiter) (now : ℕ) (ip username : Bytes)
    → blocked (success l ip username) now ip username ≡ (false, success l ip username)
unfolding blocked success
blocked-success l now ip username =
    let keys = login_limiter_keys ip username in
    let es = remove_all keys l.entries in
    ap (with_entries l) (
      blocked_loop-AllMissing l.max_failures l.window now keys es
        (AllMissing-remove_all keys l.entries))

-- The count of a key after one more failure.
abbrev pub counted : ℕ → ℕ → Option LoginFailures → LoginFailures
counted window now none = record { count = 1; first = now }
counted window now (some e) =
    if expired window now e
    then record { count = 1; first = now }
    else record { count = suc e.count; first = e.first }

find-count_failure :
    (window now : ℕ) (k key : Bytes) (es : Entries)
    → find k (count_failure window now key es)
      ≡ (if equal key k then some (counted window now (find key es)) else find k es)
unfolding count_failure find
find-count_failure window now k key es = elim (Option-cases (find key es)) [
  | inl x ↦ rw (x, count_failure) (ground (arith, find-remove k key es))
  | inr (e, x) ↦ elim (Bool-cases (expired window now e)) [
    | inl y ↦ rw (x, count_failure) (rw y (ground (arith, find-remove k key es)))
    | inr y ↦ rw (x, count_failure) (rw y (ground (arith, find-remove k key es)))
  ]
]

equal_swap : (a b : Bytes) → equal b a ≡ true → equal a b ≡ true
equal_swap a b h = (equal_iff a b).1 (sym ((equal_iff b a).0 h))

find-count_failures :
    (window now : ℕ) (k : Bytes) (keys : List Bytes) (es : Entries)
    → distinct keys ≡ true
    → find k (count_failures window now keys es)
      ≡ (if one_of k keys then some (counted window now (find k es)) else find k es)
unfolding count_failures one_of
find-count_failures window now k [] es d = refl
find-count_failures window now k (key ∷ keys) es d =
    let (apart, rest) = and_split (not (one_of key keys)) d in
    let ih = find-count_failures window now k keys (count_failure window now key es) rest in
    let here = find-count_failure window now k key es in
    elim (Bool-cases (equal k key)) [
      | inl x ↦
          let same = (equal_iff k key).0 x in
          ground (
            arith,
            ih,
            here,
            apart,
            x,
            (equal_iff key k).1 (sym same),
            ap (λ z. one_of z keys) same,
            ap (λ z. counted window now (find z es)) same,
          )
      | inr x ↦ ground (arith, ih, here, x, equal_swap k key)
    ]

distinct-login_limiter_keys :
    (ip username : Bytes) → distinct (login_limiter_keys ip username) ≡ true
unfolding login_limiter_keys one_of equal
distinct-login_limiter_keys ip username = ground arith

capped-small :
    (window now : ℕ) (es : Entries)
    → length es < login_limiter_max_entries
    → capped window now es ≡ es
unfolding capped
capped-small window now es h = ground arith

-- A call of `fail`, while the map is below its cap, adds one to the count of each key of the pair
-- and starts a key anew whose entry is missing or older than the window, and leaves all other
-- keys as they are.
pub find-fail :
    (l : LoginLimiter) (now : ℕ) (ip username k : Bytes)
    → length l.entries < login_limiter_max_entries
    → find k (fail l now ip username).entries ≡ (
        if one_of k (login_limiter_keys ip username)
        then some (counted l.window now (find k l.entries))
        else find k l.entries)
unfolding fail
find-fail l now ip username k h = rw (capped-small l.window now l.entries h) (
    find-count_failures l.window now k (login_limiter_keys ip username) l.entries
      (distinct-login_limiter_keys ip username))
