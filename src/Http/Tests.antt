-- ===== src/Http/Tests.antt =====
-- The theorems on parameters and on the state of an agent at concrete requests.
use bongsu.Prelude.{◌*◌, ◌+◌, ◌≡◌, refl, false, some, [], ◌∷◌}
use bongsu.Text.{codes}
use bongsu.Http.{limit_param}
use bongsu.Http.Status.{online, stale, offline, minute, apply_agent_status}
use bongsu.Http.Middleware.{clean_request_id, cors, answers, client_ip}

limit_test : (limit_param (codes "5000") [] 200 ≡ 1000) × (limit_param (codes "0") [] 200 ≡ 200)
unfolding limit_param
limit_test = (refl, refl)

status_test :
    (apply_agent_status [] [] (some 5) (5 + minute) ≡ (online, 60))
    × ((apply_agent_status [] [] (some 5) (5 + 2000 * minute)).0 ≡ stale)
    × ((apply_agent_status [] [] (some 5) (5 + 5000 * minute)).0 ≡ offline)
unfolding apply_agent_status
status_test = (refl, refl, refl)

request_id_test :
    (clean_request_id (codes " a-1 ") ≡ codes "a-1") × (clean_request_id (codes "a\n1") ≡ [])
unfolding clean_request_id
request_id_test = (refl, refl)

preflight_test :
    cors false (codes "https://a" ∷ []) (codes "https://b") (codes "OPTIONS") ≡ ([], answers 403)
unfolding cors
preflight_test = refl

-- The header decides, whatever address the connection comes from.
forwarded_test :
    client_ip (codes "9.9.9.9, 10.0.0.1") [] (codes "1.2.3.4:5") (some (codes "1.2.3.4"))
    ≡ codes "9.9.9.9"
unfolding client_ip
forwarded_test = refl
