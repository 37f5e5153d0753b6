-- ===== src/Auth/Tests.antt =====
-- The theorems on identities at a concrete server and provider.
use bongsu.Prelude.{ℕ, ◌*◌, ◌^◌, ◌≡◌, refl, true, false, ◌||◌, Option, none, some, [], ◌∷◌, any_of}
use bongsu.Prelude.Int.{pos}
use bongsu.Prelude.Result.{ok, err}
use bongsu.Text.{Bytes, codes, equal}
use bongsu.Text.Dict.{get}
use bongsu.TokenStore.{new_api_token_store}
use bongsu.Rbac.{AccessScope}
use bongsu.Auth.{split_identity_header_values}
use bongsu.Auth.Oidc.{verify}
use bongsu.Auth.Keys.{list_claim, OidcIdentity, OidcTokenVerifier, Keys, Provider}
use bongsu.Auth.Oidc.Sound.{IsGenuine, verify-IsGenuine}
use bongsu.Auth.Identity.{authenticate_admin, viewer_subjects, may_read_host}
use bongsu.Auth.Credentials.{Request, Server}
use bongsu.Auth.Laws.{allows_host, may_read_host-grants}

-- A provider with one key, whose signatures are the text S.
abbrev provider : Provider
provider = record {
  decode_base64 = λ text. some text;
  decode_header = λ text. some (record { alg = codes "RS256"; kid = codes "k1" });
  decode_claims = λ text. some (record {
    issuer = codes "https://idp";
    subject = codes "u1";
    audience = codes "bongsu";
    expires_at = pos 200;
    not_before = pos 0;
  });
  decode_raw = λ text. some ((codes "groups", list_claim (some (codes "ops") ∷ none ∷ [])) ∷ []);
  decode_text = λ text. some text;
  decode_texts = λ text. none;
  verifies = λ k signed sig. equal sig (codes "S");
  fetch =
      some
        (200, some (record { kty = codes "RSA"; kid = codes "k1"; n = 7 ∷ []; e = 3 ∷ [] } ∷ []));
}

abbrev verifier : OidcTokenVerifier
verifier = record {
  issuer = codes "https://idp";
  client_id = codes "bongsu";
  subject_claim = codes "sub";
  groups_claim = codes "groups";
  admin_users = [];
  admin_groups = codes "ops" ∷ [];
}

abbrev no_keys : Keys
no_keys = record { keys = none; keys_until = 0 }

abbrev token : Bytes
token = codes "H.B.S"

abbrev at_100 : ℕ
at_100 = 100 * 10 ^ 9

abbrev operator : OidcIdentity
operator = record {
  user = codes "u1";
  groups = codes "ops" ∷ [];
  subjects = codes "user:u1" ∷ codes "group:ops" ∷ [];
  admin = true;
}

verified_test : (verify verifier provider no_keys at_100 token).0 ≡ ok operator
unfolding verify equal get
verified_test = refl

verify-IsGenuine_example : IsGenuine verifier provider no_keys at_100 token operator
verify-IsGenuine_example =
    verify-IsGenuine verifier provider no_keys at_100 token operator verified_test

-- At its time of expiry the token is refused.
expired_test :
    (verify verifier provider no_keys (200 * 10 ^ 9) token).0 ≡ err (codes "expired oidc token")
unfolding verify equal get
expired_test = refl

abbrev server : Server
server = record {
  api_key = codes "secret";
  agent_key = codes "agent";
  install_token = [];
  viewer_keys = (codes "view", codes "user:ann") ∷ [];
  web_auth = true;
  trusted_auth = record {
    user_header = codes "X-User";
    groups_header = [];
    admin_users = codes "root" ∷ [];
    admin_groups = [];
    proxy_nets = (λ ip. equal ip (codes "10.0.0.1")) ∷ [];
  };
  addresses = record { split_host_port = λ a. some a; parse_ip = λ a. some a };
  api_tokens = new_api_token_store;
  token_hash = λ secret. secret;
  oidc_auth = none;
  provider = provider;
  keys = no_keys;
  now = at_100;
  session_user = none;
}

abbrev viewer : Request
viewer = record {
  x_api_key = codes "view";
  authorization = [];
  x_install_token = [];
  remote_addr = codes "1.2.3.4";
  header = λ name. [];
}

abbrev as_root : Bytes → Bytes
as_root name = codes "root"

abbrev get_scope : Bytes → Option AccessScope
get_scope subject = some (record { all = false; host_ids = codes "h1" ∷ [] })

may_read_host-grants_example : may_read_host get_scope server viewer (codes "h1") ≡ (
    authenticate_admin server viewer
    || any_of
        (λ (subject : Bytes). allows_host (get_scope subject) (codes "h1"))
        (viewer_subjects server viewer))
may_read_host-grants_example = may_read_host-grants get_scope server viewer (codes "h1") refl refl

read_test :
    (may_read_host get_scope server viewer (codes "h1") ≡ true)
    × (may_read_host get_scope server viewer (codes "h2") ≡ false)
unfolding may_read_host equal get
read_test = (refl, refl)

-- From the proxy, the same header makes an administrator.
proxy_test :
    authenticate_admin server (record viewer { header = as_root; remote_addr = codes "10.0.0.1" })
    ≡ true
unfolding authenticate_admin equal get
proxy_test = refl

names_test : split_identity_header_values (codes " ops;dev, ops ") ≡ codes "ops" ∷ codes "dev" ∷ []
unfolding split_identity_header_values
names_test = refl
