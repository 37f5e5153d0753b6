-- ===== src/TokenStore/Tests.antt =====
-- The store with one token of an agent.
use bongsu.Prelude.{◌≡◌, refl, false, none, some, List, [], ◌∷◌, ◌++◌}
use bongsu.Text.{Bytes, codes, equal}
use bongsu.TokenStore.{
  ApiTokenEntry, ApiToken, ApiTokenStore, new_api_token_store, put, lookup, api_token_from_request,
}
use bongsu.TokenStore.Laws.{lookup-evict}
use bongsu.TokenStore.World.{World, Event, deactivated, asked, finished, evicted, used, step, run}

abbrev hash : Bytes → Bytes
hash secret = codes "sha:" ++ secret

abbrev agent : ApiTokenEntry
agent = record { id = codes "t1"; role = codes "agent"; subject = []; expires_at = some 50 }

abbrev other : ApiToken
other = record {
  token_hash = codes "sha:other";
  id = codes "t2";
  role = codes "admin";
  subject = [];
  expires_at = none;
}

abbrev store : ApiTokenStore
store = put (hash (codes "s3")) agent new_api_token_store

lookup_runs :
    (lookup hash store 49 (codes "s3") ≡ some agent)
    × (lookup hash store 50 (codes "s3") ≡ none)
    × ((api_token_from_request hash store 9 [] (codes "Bearer s3 ")).0 ≡ some agent)
unfolding lookup put api_token_from_request
lookup_runs = (refl, refl, refl)

abbrev row_of_agent : ApiToken
row_of_agent = record {
  token_hash = codes "sha:s3";
  id = codes "t1";
  role = codes "agent";
  subject = [];
  expires_at = some 50;
}

abbrev both_active : World
both_active = record { active = row_of_agent ∷ other ∷ []; answers = []; store = store }

abbrev later : List Event
later = used (codes "t1") 7 ∷ finished false 0 ∷ asked ∷ finished false 0 ∷ evicted [] ∷ []

lookup-evict_example :
    lookup hash
      (run later (
        step
          (evicted (hash (codes "s3")))
          (run (asked ∷ []) (step (deactivated (hash (codes "s3"))) both_active)))).store
      20
      (codes "s3")
    ≡ none
unfolding equal
lookup-evict_example =
    lookup-evict hash (codes "s3") 20 (asked ∷ []) later both_active refl refl refl refl

-- A refresh asks the database before the revocation and ends behind it: the token is accepted
-- again.
stale_refresh_run :
    lookup hash
      (run
        (asked
          ∷ deactivated (hash (codes "s3"))
          ∷ evicted (hash (codes "s3"))
          ∷ finished false 0
          ∷ [])
        both_active).store
      20
      (codes "s3")
    ≡ some agent
unfolding run lookup
stale_refresh_run = refl
