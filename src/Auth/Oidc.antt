-- ===== src/Auth/Oidc.antt =====
-- internal/server/api/oidc.go: the verifier of the bearer tokens of an identity provider. base64,
-- encoding/json, the RSA check of a SHA-256 digest and the request for the keys are parameters. The
-- clock is read once for a request, as a number of nanoseconds.
pub mod Steps
pub mod Sound
use bongsu.Prelude.{
  ℕ, zero, suc, ◌+◌, ◌*◌, ◌/◌, ◌%◌, ◌^◌, Bool, true, false, not, ◌&&◌, ◌||◌, Option, none, some,
  List, [], ◌∷◌, ◌++◌, ltb, leb, ◌==◌, if◌then◌else◌, any_of, drop, map, drop_while,
}
use bongsu.Prelude.Int.{ℤ, pos, negsuc}
use bongsu.Prelude.Result.{Result, ok, err, ◌>>=◌}
use bongsu.Text.{Bytes, codes, equal, has_prefix, is_empty, one_of, split_on, trim_space}
use mathlib.Core.List.{reverse}
use bongsu.Text.Dict.{Dict, get, set}
use bongsu.Auth.{
  append_unique_string, append_each, split_csv, map_from_list, split_identity_header_values,
  user_subject, group_subject,
}
use bongsu.Auth.Keys.{
  PublicKey, OidcJwk, OidcJwtHeader, Claim, text_claim, list_claim, other_claim, OidcJwtClaims,
  OidcIdentity, no_identity, OidcTokenVerifier, trim_slashes, or_default,
  new_oidc_token_verifier_from_env, Keys, Provider, or_err, unless, value_of_bytes,
  rsa_key_from_jwk, usable_keys, five_minutes, decoded_keys, stored_keys, refresh_keys, key_in,
  cached_key, found_or_not, key,
}

unfoldable pub audience_contains : Provider → OidcJwtClaims → Bytes → Bool
unfolding equal one_of
audience_contains p c want = elim (p.decode_text c.audience) [
  | some one ↦ equal one want
  | none ↦ elim (p.decode_texts c.audience) [ some many ↦ one_of want many | none ↦ false ]
]

unfoldable pub claim_string : Dict Claim → Bytes → Bytes
unfolding get trim_space
claim_string raw name = if is_empty name then [] else elim (get name raw) [
  | none ↦ []
  | some c ↦ elim c [ text_claim s ↦ trim_space s | list_claim items ↦ [] | other_claim ↦ [] ]
]

abbrev pub strings_of : List (Option Bytes) → List Bytes
strings_of [] = []
strings_of (none ∷ items) = strings_of items
strings_of (some s ∷ items) = s ∷ strings_of items

unfoldable pub claim_string_list : Dict Claim → Bytes → List Bytes
unfolding get split_identity_header_values append_each
claim_string_list raw name = elim (get name raw) [
  | none ↦ []
  | some c ↦ elim c [
    | text_claim s ↦ split_identity_header_values s
    | list_claim items ↦ append_each [] (strings_of items)
    | other_claim ↦ []
  ]
]

-- `a <= b` and `a > b` of integers and a number.
abbrev pub at_most : ℤ → ℕ → Bool
at_most (pos a) b = leb a b
at_most (negsuc a) b = true

abbrev pub or_subject : Bytes → Bytes → Bytes
or_subject user subject = if is_empty user then subject else user

-- The identity of a user by the groups.
unfoldable pub identity_of : OidcTokenVerifier → Bytes → List Bytes → OidcIdentity
unfolding append_each one_of
identity_of v user groups = record {
  user = user;
  groups = groups;
  subjects = append_each (user_subject user ∷ []) (map group_subject groups);
  admin = one_of user v.admin_users || any_of (λ (g : Bytes). one_of g v.admin_groups) groups;
}

-- The checks of the claims.
unfoldable pub check_claims :
    OidcTokenVerifier → Provider → ℕ → OidcJwtClaims → Dict Claim → Result Bytes OidcIdentity
unfolding audience_contains claim_string claim_string_list identity_of equal
check_claims v p now claims raw =
    let unix = now / 10 ^ 9 in
    let user = or_subject (claim_string raw v.subject_claim) claims.subject in
    unless (not (equal claims.issuer v.issuer)) (codes "invalid oidc issuer") >>= λ (u : Unit).
    unless (not (audience_contains p claims v.client_id)) (codes "invalid oidc audience")
    >>= λ (u : Unit).
        unless (at_most claims.expires_at unix) (codes "expired oidc token") >>= λ (u : Unit).
        unless (not (at_most claims.not_before (unix + 60))) (codes "oidc token not yet valid")
        >>= λ (u : Unit). unless (is_empty user) (codes "missing oidc subject") >>= λ (u : Unit).
            ok (identity_of v user (claim_string_list raw v.groups_claim))

-- From the signing key on.
unfoldable pub check_signed :
    OidcTokenVerifier → Provider → ℕ → Bytes → Bytes → Bytes → PublicKey → Result Bytes OidcIdentity
unfolding check_claims
check_signed v p now head body sig_text k =
    or_err (codes "base64") (p.decode_base64 sig_text) >>= λ (sig : Bytes).
    unless (not (p.verifies k (head ++ b'.' ∷ body) sig)) (codes "invalid oidc token signature")
    >>= λ (u : Unit). or_err (codes "base64") (p.decode_base64 body) >>= λ (json : Bytes).
        or_err (codes "json") (p.decode_claims json) >>= λ (claims : OidcJwtClaims).
        or_err (codes "json") (p.decode_raw json) >>= λ (raw : Dict Claim).
        check_claims v p now claims raw

unfoldable pub read_header : Provider → Bytes → Result Bytes OidcJwtHeader
unfolding equal
read_header p head = or_err (codes "base64") (p.decode_base64 head) >>= λ (json : Bytes).
    or_err (codes "json") (p.decode_header json) >>= λ (h : OidcJwtHeader).
    unless (not (equal h.alg (codes "RS256")) || is_empty h.kid)
      (codes "unsupported oidc token header")
    >>= λ (u : Unit). ok h

unfoldable pub with_key :
    OidcTokenVerifier
    → Provider
    → ℕ
    → Bytes
    → Bytes
    → Bytes
    → Result Bytes PublicKey × Keys
    → Result Bytes OidcIdentity × Keys
unfolding check_signed
with_key v p now head body sig (k, ks) = (k >>= check_signed v p now head body sig, ks)

unfoldable pub verify_parts :
    OidcTokenVerifier → Provider → Keys → ℕ → List Bytes → Result Bytes OidcIdentity × Keys
unfolding read_header key with_key
verify_parts v p ks now (head ∷ body ∷ sig ∷ []) = elim (read_header p head) [
  | err e ↦ (err e, ks)
  | ok h ↦ with_key v p now head body sig (key p ks now h.kid)
]
verify_parts v p ks now _ = (err (codes "invalid oidc token shape"), ks)

unfoldable pub verify :
    OidcTokenVerifier → Provider → Keys → ℕ → Bytes → Result Bytes OidcIdentity × Keys
unfolding verify_parts split_on
verify v p ks now token = verify_parts v p ks now (split_on b'.' token)

-- By the header Authorization; `none` is the nil verifier.
unfoldable pub identity_from_request :
    Option OidcTokenVerifier → Provider → Keys → ℕ → Bytes → Result Bytes OidcIdentity × Keys
unfolding verify has_prefix trim_space
identity_from_request none p ks now authorization = (ok no_identity, ks)
identity_from_request (some v) p ks now authorization =
    let text = trim_space authorization in
    let token = trim_space (drop 7 text) in
    if not (has_prefix text (codes "Bearer ")) || is_empty token
    then (ok no_identity, ks)
    else verify v p ks now token
