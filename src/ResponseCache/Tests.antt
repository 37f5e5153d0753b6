-- ===== src/ResponseCache/Tests.antt =====
-- The theorem on the cache at a concrete run.
use bongsu.Prelude.{ℕ, ◌+◌, ◌≤◌, ◌≡◌, refl, none, some, List, [], ◌∷◌}
use bongsu.Text.{codes, equal}
use bongsu.Text.Dict.{get}
use bongsu.ResponseCache.{cached}
use bongsu.ResponseCache.Laws.{Event, puts, run, latest, cached-latest}

abbrev polls : List (Event ℕ)
polls = puts (codes "a") 1 5 ∷ puts (codes "b") 2 6 ∷ puts (codes "a") 3 8 ∷ []

held_test : cached (run polls (record { ttl = 10; entries = [] })) 18 (codes "a") ≡ some 3
unfolding cached run equal get
held_test = refl

old_test : cached (run polls (record { ttl = 10; entries = [] })) 17 (codes "b") ≡ none
unfolding cached run equal get
old_test = refl

cached-latest_example : (t : ℕ) × (latest (codes "a") polls none ≡ some (3, t)) × (18 ≤ t + 10)
cached-latest_example = cached-latest 10 polls 18 (codes "a") 3 held_test
