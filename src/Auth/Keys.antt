-- ===== src/Auth/Keys.antt =====
-- internal/server/api/oidc.go: the settings of the verifier and the keys of the provider. base64,
-- encoding/json, the RSA check of a SHA-256 digest and the request for the keys are parameters.
use bongsu.Prelude.{
  ℕ, ◌+◌, ◌*◌, ◌/◌, ◌%◌, ◌^◌, Bool, true, false, not, ◌||◌, Option, none, some, List, [], ◌∷◌, ltb,
  ◌==◌, if◌then◌else◌, drop_while,
}
use bongsu.Prelude.Int.{ℤ}
use bongsu.Prelude.Result.{Result, ok, err, ◌>>=◌}
use bongsu.Text.{Bytes, codes, equal, is_empty, trim_space}
use mathlib.Core.List.{reverse}
use bongsu.Text.Dict.{Dict, get, set}
use bongsu.Auth.{split_csv, map_from_list}

pub record PublicKey : Type 0 where
  pub modulus : ℕ
  pub exponent : ℕ

pub record OidcJwk : Type 0 where
  pub kty : Bytes
  pub kid : Bytes
  pub n : Bytes
  pub e : Bytes

pub record OidcJwtHeader : Type 0 where
  pub alg : Bytes
  pub kid : Bytes

-- A claim as JSON has it; `none` in a list is an item that is no string.
pub data Claim : Type 0 where
  text_claim : Bytes → Claim
  list_claim : List (Option Bytes) → Claim
  other_claim : Claim

pub record OidcJwtClaims : Type 0 where
  pub issuer : Bytes
  pub subject : Bytes
  pub audience : Bytes
  pub expires_at : ℤ
  pub not_before : ℤ

pub record OidcIdentity : Type 0 where
  pub user : Bytes
  pub groups : List Bytes
  pub subjects : List Bytes
  pub admin : Bool

abbrev pub no_identity : OidcIdentity
no_identity = record { user = []; groups = []; subjects = []; admin = false }

-- The settings of the verifier.
pub record OidcTokenVerifier : Type 0 where
  pub issuer : Bytes
  pub client_id : Bytes
  pub subject_claim : Bytes
  pub groups_claim : Bytes
  pub admin_users : List Bytes
  pub admin_groups : List Bytes

-- `strings.TrimRight(s, "/")`
unfoldable pub trim_slashes : Bytes → Bytes
unfolding drop_while
trim_slashes s = reverse (drop_while (λ (c : ℕ). c == b'/') (reverse s))

abbrev pub or_default : Bytes → Bytes → Bytes
or_default d s = if is_empty s then d else s

-- By `os.Getenv`; the URL of the keys is left out.
unfoldable pub new_oidc_token_verifier_from_env : (Bytes → Bytes) → Option OidcTokenVerifier
unfolding trim_slashes trim_space split_csv map_from_list
new_oidc_token_verifier_from_env env =
    let issuer = trim_slashes (trim_space (env (codes "BONGSU_OIDC_ISSUER"))) in
    let client_id = trim_space (env (codes "BONGSU_OIDC_CLIENT_ID")) in
    if is_empty issuer || is_empty client_id
    then none
    else some (record {
      issuer = issuer;
      client_id = client_id;
      subject_claim =
          or_default (codes "sub") (trim_space (env (codes "BONGSU_OIDC_SUBJECT_CLAIM")));
      groups_claim =
          or_default (codes "groups") (trim_space (env (codes "BONGSU_OIDC_GROUPS_CLAIM")));
      admin_users = map_from_list (split_csv (env (codes "BONGSU_OIDC_ADMIN_USERS")));
      admin_groups = map_from_list (split_csv (env (codes "BONGSU_OIDC_ADMIN_GROUPS")));
    })

-- `keys` and `keysUntil`; `none` is the nil map.
pub record Keys : Type 0 where
  pub keys : Option (Dict PublicKey)
  pub keys_until : ℕ

-- What stands outside. `fetch` is the answer to the request for the keys: the status and the body.
pub record Provider : Type 0 where
  pub decode_base64 : Bytes → Option Bytes
  pub decode_header : Bytes → Option OidcJwtHeader
  pub decode_claims : Bytes → Option OidcJwtClaims
  pub decode_raw : Bytes → Option (Dict Claim)
  pub decode_text : Bytes → Option Bytes
  pub decode_texts : Bytes → Option (List Bytes)
  pub verifies : PublicKey → Bytes → Bytes → Bool
  pub fetch : Option (ℕ × Option (List OidcJwk))

abbrev pub or_err : {A : Type 0} → Bytes → Option A → Result Bytes A
or_err e none = err e
or_err e (some a) = ok a

-- A guard with an early return.
abbrev pub unless : Bool → Bytes → Result {0, 0} Bytes Unit
unless bad e = if bad then err e else ok tt

-- The number of big-endian bytes.
abbrev pub value_of_bytes : ℕ → Bytes → ℕ
value_of_bytes v [] = v
value_of_bytes v (b ∷ bs) = value_of_bytes (v * 256 + b) bs

-- `e` is an `int`: the low 64 bits.
unfoldable pub rsa_key_from_jwk : Provider → OidcJwk → Option PublicKey
unfolding equal
rsa_key_from_jwk p jwk =
    if not (equal jwk.kty (codes "RSA")) || is_empty jwk.kid || is_empty jwk.n || is_empty jwk.e
    then none
    else elim (p.decode_base64 jwk.n) [
      | none ↦ none
      | some n ↦ elim (p.decode_base64 jwk.e) [
        | none ↦ none
        | some e ↦
            let exponent = value_of_bytes 0 e % 2 ^ 64 in
            if exponent == 0
            then none
            else some (record { modulus = value_of_bytes 0 n; exponent = exponent })
      ]
    ]

-- The loop over the keys of the answer.
unfoldable pub usable_keys : Provider → List OidcJwk → Dict PublicKey → Dict PublicKey
unfolding rsa_key_from_jwk
usable_keys p [] keys = keys
usable_keys p (jwk ∷ jwks) keys = elim (rsa_key_from_jwk p jwk) [
  | none ↦ usable_keys p jwks keys
  | some key ↦ usable_keys p jwks (set jwk.kid key keys)
]

abbrev pub is_none_left {ℓ} : {A : Type ℓ} → List A → Bool
is_none_left [] = true
is_none_left (a ∷ rest) = false

abbrev pub five_minutes : ℕ
five_minutes = 300 * 10 ^ 9

abbrev pub decoded_keys : ℕ × Option (List OidcJwk) → Result Bytes (List OidcJwk)
decoded_keys answer =
    if answer.0 / 100 == 2
    then or_err (codes "decode") answer.1
    else err (codes "oidc jwks returned HTTP")

abbrev pub stored_keys : ℕ → Dict PublicKey → Result Bytes Keys
stored_keys now keys =
    if is_none_left keys
    then err (codes "oidc jwks contained no usable RSA keys")
    else ok (record { keys = some keys; keys_until = now + five_minutes })

unfoldable pub refresh_keys : Provider → ℕ → Result Bytes Keys
unfolding usable_keys
refresh_keys p now = or_err (codes "fetch") p.fetch >>= λ (answer : ℕ × Option (List OidcJwk)).
    decoded_keys answer >>= λ (jwks : List OidcJwk). stored_keys now (usable_keys p jwks [])

abbrev pub key_in : Option (Dict PublicKey) → Bytes → Option PublicKey
key_in none kid = none
key_in (some keys) kid = get kid keys

unfoldable pub cached_key : Keys → ℕ → Bytes → Option PublicKey
unfolding get
cached_key ks now kid = if ltb ks.keys_until now then none else key_in ks.keys kid

abbrev pub found_or_not : Option PublicKey → Result Bytes PublicKey
found_or_not = or_err (codes "oidc signing key not found")

-- The key, and the keys held afterwards.
unfoldable pub key : Provider → Keys → ℕ → Bytes → Result Bytes PublicKey × Keys
unfolding cached_key refresh_keys
key p ks now kid = elim (cached_key ks now kid) [
  | some k ↦ (ok k, ks)
  | none ↦ elim (refresh_keys p now) [
    | err e ↦ (err e, ks)
    | ok fresh ↦ (found_or_not (cached_key fresh now kid), fresh)
  ]
]
