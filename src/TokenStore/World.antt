-- ===== src/TokenStore/World.antt =====
-- The store of tokens beside the database. `refresh` asks the database before it takes the lock, so
-- it has two steps here, its question and its end, and other steps may stand between them. The
-- handlers of the creation and of the revocation have two steps as well: the row, and the store.
use bongsu.Prelude.{ℕ, zero, suc, Bool, true, false, not, Option, none, some, List, [], ◌∷◌}
use bongsu.Prelude.Sort.{filter}
use bongsu.Text.{Bytes, equal}
use bongsu.TokenStore.{ApiTokenEntry, ApiToken, ApiTokenStore, refresh, put, evict, mark_used}

-- The rows that are neither revoked nor expired, the answers that refreshes under way have from
-- the database, and the store.
pub record World : Type 0 where
  pub active : List ApiToken
  pub answers : List (List ApiToken)
  pub store : ApiTokenStore

pub data Event : Type 0 where
  inserted : ApiToken → Event
  deactivated : Bytes → Event
  asked : Event
  finished : Bool → ℕ → Event
  added : Bytes → ApiTokenEntry → Event
  evicted : Bytes → Event
  used : Bytes → ℕ → Event

abbrev pub is_of : Bytes → ApiToken → Bool
is_of h t = equal t.token_hash h

abbrev pub answer_at : ℕ → List (List ApiToken) → Option (List ApiToken)
answer_at n [] = none
answer_at zero (rows ∷ answers) = some rows
answer_at (suc n) (rows ∷ answers) = answer_at n answers

abbrev pub without_answer : ℕ → List (List ApiToken) → List (List ApiToken)
without_answer n [] = []
without_answer zero (rows ∷ answers) = answers
without_answer (suc n) (rows ∷ answers) = rows ∷ without_answer n answers

-- A refresh ends with an error of the database, or with its answer.
abbrev pub result_of : Bool → ℕ → List (List ApiToken) → Option (List ApiToken)
result_of true n answers = none
result_of false n answers = answer_at n answers

unfoldable pub step : Event → World → World
unfolding refresh put evict mark_used filter
step (inserted t) w = record w { active = t ∷ w.active }
step (deactivated h) w = record w { active = filter (λ (t : ApiToken). not (is_of h t)) w.active }
step asked w = record w { answers = w.active ∷ w.answers }
step (finished fails n) w = record w {
  answers = without_answer n w.answers;
  store = refresh (result_of fails n w.answers) w.store;
}
step (added hash e) w = record w { store = put hash e w.store }
step (evicted hash) w = record w { store = evict hash w.store }
step (used id now) w = record w { store = (mark_used id now w.store).0 }

unfoldable pub run : List Event → World → World
unfolding step
run [] w = w
run (e ∷ es) w = run es (step e w)
