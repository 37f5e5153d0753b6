-- ===== src/LoginLimiter/Tests.antt =====
-- The limiter on concrete logins.
use bongsu.Prelude.{◌≡◌, refl, true, false, some, [], ◌∷◌, ◌++◌, arith}
use bongsu.Text.{Bytes, codes, one_of}
use bongsu.LoginLimiter.{LoginLimiter, find, fail, blocked}
use bongsu.LoginLimiter.Laws.{find-fail}

abbrev ip : Bytes
ip = codes " 10.0.0.1"

abbrev user : Bytes
user = codes "Admin"

abbrev user_key : Bytes
user_key = codes "user" ++ 0 ∷ codes "admin"

abbrev once : LoginLimiter
once = record {
  max_failures = 2;
  window = 900;
  entries = (user_key, record { count = 1; first = 10 }) ∷ [];
}

lock_runs :
    ((blocked once 20 ip user).0 ≡ false)
    × ((blocked (fail once 20 ip user) 30 ip user).0 ≡ true)
    × ((blocked (fail once 20 ip user) 911 (codes "10.0.0.2") user).0 ≡ false)
unfolding blocked fail
lock_runs = (refl, refl, refl)

find-fail_example :
    find user_key (fail once 20 ip user).entries ≡ some (record { count = 2; first = 10 })
unfolding find fail one_of
find-fail_example = find-fail once 20 ip user user_key (omega arith)
