-- ===== src/Auth/Credentials.antt =====
-- internal/server/api/api.go: what a request shows of the one it comes from. The session of a request and
-- the parsing of addresses are parameters; the clock is read once for a request.
use bongsu.Prelude.{
  ℕ, Bool, false, not, ◌&&◌, ◌||◌, Option, none, some, List, [], if◌then◌else◌, any_of, map,
}
use bongsu.Prelude.Result.{Result, ok, err}
use bongsu.Text.{Bytes, equal, is_empty, one_of, trim_space}
use bongsu.Text.Dict.{Dict}
use bongsu.TokenStore.{ApiTokenEntry, ApiTokenStore, api_token_from_request}
use bongsu.Auth.{
  append_unique_string, append_each, split_identity_header_values, user_subject, group_subject,
}
use bongsu.Auth.Oidc.{identity_from_request}
use bongsu.Auth.Keys.{OidcIdentity, OidcTokenVerifier, Provider, Keys, no_identity}

pub record Request : Type 0 where
  pub x_api_key : Bytes
  pub authorization : Bytes
  pub x_install_token : Bytes
  pub remote_addr : Bytes
  pub header : Bytes → Bytes

pub record User : Type 0 where
  pub username : Bytes
  pub role : Bytes

pub record TrustedIdentityConfig : Type 0 where
  pub user_header : Bytes
  pub groups_header : Bytes
  pub admin_users : List Bytes
  pub admin_groups : List Bytes
  pub proxy_nets : List (Bytes → Bool)

-- `net.SplitHostPort` and `net.ParseIP`.
pub record Addresses : Type 0 where
  pub split_host_port : Bytes → Option Bytes
  pub parse_ip : Bytes → Option Bytes

-- The server, as far as it decides on requests.
pub record Server : Type 0 where
  pub api_key : Bytes
  pub agent_key : Bytes
  pub install_token : Bytes
  pub viewer_keys : Dict Bytes
  pub web_auth : Bool
  pub trusted_auth : TrustedIdentityConfig
  pub addresses : Addresses
  pub api_tokens : ApiTokenStore
  pub token_hash : Bytes → Bytes
  pub oidc_auth : Option OidcTokenVerifier
  pub provider : Provider
  pub keys : Keys
  pub now : ℕ
  pub session_user : Option User

-- `subtle.ConstantTimeCompare` is 1 for equal bytes.
unfoldable pub match_key : Bytes → Bytes → Bool
unfolding equal
match_key got want = not (is_empty got) && not (is_empty want) && equal got want

abbrev pub or_text : Bytes → Option Bytes → Bytes
or_text d none = d
or_text d (some s) = s

unfoldable pub trusts_remote_addr : Addresses → TrustedIdentityConfig → Bytes → Bool
unfolding trim_space
trusts_remote_addr a c remote_addr =
    elim (a.parse_ip (trim_space (or_text remote_addr (a.split_host_port remote_addr)))) [
      | none ↦ false
      | some ip ↦ any_of (λ (network : Bytes → Bool). network ip) c.proxy_nets
    ]

-- The user and the groups of the two headers.
unfoldable pub trusted_user : TrustedIdentityConfig → (Bytes → Bytes) → Bytes
unfolding trim_space
trusted_user c header = if is_empty c.user_header then [] else trim_space (header c.user_header)

unfoldable pub trusted_groups : TrustedIdentityConfig → (Bytes → Bytes) → List Bytes
unfolding split_identity_header_values
trusted_groups c header =
    if is_empty c.groups_header then [] else split_identity_header_values (header c.groups_header)

abbrev pub user_subjects : Bytes → List Bytes
user_subjects user = if is_empty user then [] else append_unique_string [] (user_subject user)

-- Empty when there is neither a user nor a group, as the loops then add nothing.
unfoldable pub trusted_of : TrustedIdentityConfig → Bytes → List Bytes → OidcIdentity
unfolding append_each append_unique_string one_of
trusted_of c user groups = record {
  user = user;
  groups = groups;
  subjects = append_each (user_subjects user) (map group_subject groups);
  admin =
      (not (is_empty user) && one_of user c.admin_users)
      || any_of (λ (g : Bytes). one_of g c.admin_groups) groups;
}

unfoldable pub trusted_identity : Server → Request → OidcIdentity
unfolding trusts_remote_addr trusted_user trusted_groups trusted_of
trusted_identity s r =
    let c = s.trusted_auth in
    if is_empty c.user_header && is_empty c.groups_header
    then no_identity
    else if trusts_remote_addr s.addresses c r.remote_addr
    then trusted_of c (trusted_user c r.header) (trusted_groups c r.header)
    else no_identity

abbrev pub or_no_identity : Result Bytes OidcIdentity → OidcIdentity
or_no_identity (ok i) = i
or_no_identity (err e) = no_identity

unfoldable pub oidc_identity : Server → Request → OidcIdentity
unfolding identity_from_request
oidc_identity s r =
    or_no_identity (identity_from_request s.oidc_auth s.provider s.keys s.now r.authorization).0

unfoldable pub token_entry : Server → Request → Option ApiTokenEntry
unfolding api_token_from_request
token_entry s r =
    (api_token_from_request s.token_hash s.api_tokens s.now r.x_api_key r.authorization).0
