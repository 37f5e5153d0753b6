-- ===== src/TokenStore/Laws.antt =====
-- Revocation: when a hash that the database no longer lists as active stays out of the store.
use bongsu.Prelude.{
  ℕ, zero, suc, ◌≡◌, refl, ap, ◌∙◌, Bool, true, false, not, none, List, [], ◌∷◌, arith, all_of,
  any_of, and_split, Bool-cases, inl, inr,
}
use bongsu.Prelude.Sort.{filter}
use bongsu.Text.{Bytes, equal, is_empty}
use bongsu.Text.Dict.{Dict, get, set, delete, get-deleted, get-filter_none}
use bongsu.TokenStore.{
  ApiTokenEntry, ApiToken, ApiTokenStore, entry_of, fill, refresh, put, evict, lookup, is_recent,
  mark_used,
}
use bongsu.TokenStore.World.{
  World, Event, inserted, deactivated, asked, finished, added, evicted, used, is_of, answer_at,
  without_answer, step, run,
}

-- A token with this hash is created: its row, or its entry in the store.
abbrev pub creates : Bytes → Event → Bool
creates h (inserted t) = is_of h t
creates h (added hash e) = equal hash h
creates h _ = false

-- No row has the hash.
abbrev pub is_free : Bytes → List ApiToken → Bool
is_free h rows = not (any_of (is_of h) rows)

get-fill :
    (h : Bytes) (tokens : List ApiToken) (next : Dict ApiTokenEntry)
    → is_free h tokens ≡ true
    → get h next ≡ none
    → get h (fill tokens next) ≡ none
unfolding fill get
get-fill h [] next k l = l
get-fill h (t ∷ tokens) next k l =
    get-fill h tokens (set t.token_hash (entry_of t) next) (ground (arith, k))
      (ground (arith, k, l))

-- The hash is not in the store.
abbrev IsMissing : Bytes → ApiTokenStore → Type 0
IsMissing h s = get h s.by_hash ≡ none

mark_used-by_hash :
    (id : Bytes) (now : ℕ) (s : ApiTokenStore) → (mark_used id now s).0.by_hash ≡ s.by_hash
unfolding mark_used
mark_used-by_hash id now s = elim (Bool-cases (is_empty id)) [
  | inl no_id ↦ rw (mark_used, no_id) refl
  | inr some_id ↦ elim (Bool-cases (is_recent now (get id s.last_seen))) [
    | inl recent ↦ rw (mark_used, some_id, recent) refl
    | inr due ↦ rw (mark_used, some_id, due) refl
  ]
]

-- Neither the database nor an answer of it that is under way has the hash.
abbrev IsClean : Bytes → World → Type 0
IsClean h w = (is_free h w.active ≡ true) × (all_of (is_free h) w.answers ≡ true)

is_free-deactivated :
    (h g : Bytes) (rows : List ApiToken)
    → is_free h rows ≡ true
    → is_free h (filter (λ (t : ApiToken). not (is_of g t)) rows) ≡ true
unfolding filter
is_free-deactivated h g [] k = refl
is_free-deactivated h g (t ∷ rows) k = ground (arith, k, is_free-deactivated h g rows)

deactivated-is_free :
    (h : Bytes) (rows : List ApiToken)
    → is_free h (filter (λ (t : ApiToken). not (is_of h t)) rows) ≡ true
unfolding filter
deactivated-is_free h [] = refl
deactivated-is_free h (t ∷ rows) = ground (arith, deactivated-is_free h rows)

all_of-without_answer :
    (h : Bytes) (n : ℕ) (answers : List (List ApiToken))
    → all_of (is_free h) answers ≡ true
    → all_of (is_free h) (without_answer n answers) ≡ true
all_of-without_answer h n [] k = refl
all_of-without_answer h zero (rows ∷ answers) k = (and_split (is_free h rows) k).1
all_of-without_answer h (suc n) (rows ∷ answers) k =
    let (here, rest) = and_split (is_free h rows) k in
    rw (here, all_of-without_answer h n answers rest) refl

step-IsClean :
    (h : Bytes) (e : Event) (w : World)
    → not (creates h e) ≡ true
    → IsClean h w
    → IsClean h (step e w)
unfolding step
step-IsClean h (inserted t) w k (a, b) = (ground (arith, k, a), b)
step-IsClean h (deactivated g) w k (a, b) = (is_free-deactivated h g w.active a, b)
step-IsClean h asked w k (a, b) = (a, rw (a, b) refl)
step-IsClean h (finished fails n) w k (a, b) = (a, all_of-without_answer h n w.answers b)
step-IsClean h (added hash e) w k c = c
step-IsClean h (evicted hash) w k c = c
step-IsClean h (used id now) w k c = c

refresh-IsMissing :
    (h : Bytes) (n : ℕ) (answers : List (List ApiToken)) (s : ApiTokenStore)
    → all_of (is_free h) answers ≡ true
    → IsMissing h s
    → IsMissing h (refresh (answer_at n answers) s)
unfolding refresh get
refresh-IsMissing h n [] s k l = l
refresh-IsMissing h zero (rows ∷ answers) s k l =
    get-fill h rows [] (and_split (is_free h rows) k).0 refl
refresh-IsMissing h (suc n) (rows ∷ answers) s k l =
    refresh-IsMissing h n answers s (and_split (is_free h rows) k).1 l

step-IsMissing :
    (h : Bytes) (e : Event) (w : World)
    → not (creates h e) ≡ true
    → IsClean h w
    → IsMissing h w.store
    → IsMissing h (step e w).store
unfolding step refresh put evict get delete
step-IsMissing h (inserted t) w k c l = l
step-IsMissing h (deactivated g) w k c l = l
step-IsMissing h asked w k c l = l
step-IsMissing h (finished true n) w k c l = l
step-IsMissing h (finished false n) w k c l = refresh-IsMissing h n w.answers w.store c.1 l
step-IsMissing h (added hash e) w k c l = ground (arith, k, l)
step-IsMissing h (evicted hash) w k c l =
    let less =
      get-filter_none h (λ (e : Bytes × ApiTokenEntry). not (equal e.0 hash)) w.store.by_hash l in
    elim (Bool-cases (is_empty hash)) [
      | inl none_given ↦ rw none_given l
      | inr given ↦ rw given less
    ]
step-IsMissing h (used id now) w k c l = ap (get h) (mark_used-by_hash id now w.store) ∙ l

run-IsClean :
    (h : Bytes) (es : List Event) (w : World)
    → all_of (λ e. not (creates h e)) es ≡ true
    → IsClean h w
    → IsClean h (run es w)
unfolding run
run-IsClean h [] w k c = c
run-IsClean h (e ∷ es) w k c =
    let (here, rest) = and_split (not (creates h e)) k in
    run-IsClean h es (step e w) rest (step-IsClean h e w here c)

run-IsMissing :
    (h : Bytes) (es : List Event) (w : World)
    → all_of (λ e. not (creates h e)) es ≡ true
    → IsClean h w
    → IsMissing h w.store
    → IsMissing h (run es w).store
unfolding run
run-IsMissing h [] w k c l = l
run-IsMissing h (e ∷ es) w k c l =
    let (here, rest) = and_split (not (creates h e)) k in
    run-IsMissing h es (step e w) rest (step-IsClean h e w here c) (step-IsMissing h e w here c l)

evict-IsMissing : (h : Bytes) (s : ApiTokenStore) → is_empty h ≡ false → IsMissing h (evict h s)
unfolding evict
evict-IsMissing h s k = rw k (get-deleted h s.by_hash)

-- After the row of a hash has been revoked in the database, and `evict` of the hash some steps
-- later, `lookup` finds no entry for its secret at any time, whatever questions and ends of
-- refreshes, creations, revocations and uses come between and behind, when the hash is not empty,
-- no creation among them is of this hash, and no refresh that was under way at the revocation
-- holds an answer of the database with this hash.
pub lookup-evict :
    (hash : Bytes → Bytes) (secret : Bytes) (now : ℕ) (before after : List Event) (w : World)
    → is_empty (hash secret) ≡ false
    → all_of (is_free (hash secret)) w.answers ≡ true
    → all_of (λ e. not (creates (hash secret) e)) before ≡ true
    → all_of (λ e. not (creates (hash secret) e)) after ≡ true
    → lookup hash
        (run after
          (step (evicted (hash secret)) (run before (step (deactivated (hash secret)) w)))).store
        now
        secret
      ≡ none
unfolding lookup step
lookup-evict hash secret now before after w given fresh k l =
    let h = hash secret in
    let revoked = step (deactivated h) w in
    let clean : IsClean h revoked = (deactivated-is_free h w.active, fresh) in
    let between = run before revoked in
    let missing =
      run-IsMissing h after (step (evicted h) between) l (run-IsClean h before revoked k clean)
        (evict-IsMissing h between.store given) in
    elim (Bool-cases (is_empty secret)) [
      | inl no_secret ↦ rw no_secret refl
      | inr some_secret ↦ rw (some_secret, missing) refl
    ]
