-- ===== src/Auth/Oidc/Sound.antt =====
-- What a verified token had to be.
use bongsu.Prelude.{
  ℕ, ◌+◌, ◌/◌, ◌^◌, ◌≡◌, refl, ap, ◌∙◌, subst, true, false, not, ◌||◌, Option, none, some, List, [],
  ◌∷◌, ◌++◌, arith, Option-cases, inl, inr, ◌⊎◌, any_of,
}
use bongsu.Prelude.Result.{ok, Result-cases}
use bongsu.Text.{Bytes, codes, equal, is_empty, one_of, split_on}
use bongsu.Text.Dict.{Dict}
use bongsu.Auth.Oidc.{
  audience_contains, claim_string, claim_string_list, at_most, or_subject, identity_of,
  check_claims, check_signed, read_header, with_key, verify_parts, verify,
}
use bongsu.Auth.Keys.{
  PublicKey, OidcJwtHeader, Claim, OidcJwtClaims, OidcIdentity, OidcTokenVerifier, Keys, Provider,
  cached_key, refresh_keys, found_or_not, key,
}
use bongsu.Auth.Oidc.Steps.{>>=-ok, ok-injective, unless-ok, or_err-ok, err-ok}

-- The key is one of the provider's: held and not older than its time, or fetched by this request.
abbrev pub IsKnownKey : Provider → Keys → ℕ → Bytes → PublicKey → Type 0
IsKnownKey p ks now kid k =
    (cached_key ks now kid ≡ some k)
    ⊎ ((fresh : Keys) × (refresh_keys p now ≡ ok fresh) × (cached_key fresh now kid ≡ some k))

-- The claims that make the identity.
pub record IsValid (v : OidcTokenVerifier) (p : Provider) (now : ℕ) (claims : OidcJwtClaims)
    (raw : Dict Claim) (i : OidcIdentity) : Type 0 where
  pub issuer : equal claims.issuer v.issuer ≡ true
  pub audience : audience_contains p claims v.client_id ≡ true
  pub unexpired : at_most claims.expires_at (now / 10 ^ 9) ≡ false
  pub begun : at_most claims.not_before (now / 10 ^ 9 + 60) ≡ true
  pub named : is_empty i.user ≡ false
  pub user : i.user ≡ or_subject (claim_string raw v.subject_claim) claims.subject
  pub admin : i.admin ≡ (
      one_of i.user v.admin_users
      || any_of (λ (g : Bytes). one_of g v.admin_groups) (claim_string_list raw v.groups_claim))

check_claims-IsValid :
    (v : OidcTokenVerifier) (p : Provider) (now : ℕ) (claims : OidcJwtClaims) (raw : Dict Claim)
    (i : OidcIdentity)
    → check_claims v p now claims raw ≡ ok i
    → IsValid v p now claims raw i
unfolding check_claims identity_of
check_claims-IsValid v p now claims raw i h =
    let user = or_subject (claim_string raw v.subject_claim) claims.subject in
    let (a, h1) = unless-ok (not (equal claims.issuer v.issuer)) _ _ h in
    let (b, h2) = unless-ok (not (audience_contains p claims v.client_id)) _ _ h1 in
    let (c, h3) = unless-ok (at_most claims.expires_at (now / 10 ^ 9)) _ _ h2 in
    let (d, h4) = unless-ok (not (at_most claims.not_before (now / 10 ^ 9 + 60))) _ _ h3 in
    let (e, h5) = unless-ok (is_empty user) _ _ h4 in
    let same = ok-injective h5 in
    subst (λ (i : OidcIdentity). IsValid v p now claims raw i) same
      record {
        issuer = ground (arith, a);
        audience = ground (arith, b);
        unexpired = c;
        begun = ground (arith, d);
        named = e;
        user = refl;
        admin = refl;
      }

-- A token of three parts: the header is what the first decodes to, the signature what the third
-- decodes to, it is by a known key and on the first two, and the claims are those of the second.
pub record IsGenuine (v : OidcTokenVerifier) (p : Provider) (ks : Keys) (now : ℕ) (token : Bytes)
    (i : OidcIdentity) : Type 0 where
  pub head : Bytes
  pub body : Bytes
  pub sig_text : Bytes
  pub parts : split_on b'.' token ≡ head ∷ body ∷ sig_text ∷ []
  pub head_json : Bytes
  pub head_decoded : p.decode_base64 head ≡ some head_json
  pub header : OidcJwtHeader
  pub header_of : p.decode_header head_json ≡ some header
  pub algorithm : equal header.alg (codes "RS256") ≡ true
  pub key_named : is_empty header.kid ≡ false
  pub signing_key : PublicKey
  pub known : IsKnownKey p ks now header.kid signing_key
  pub sig : Bytes
  pub sig_decoded : p.decode_base64 sig_text ≡ some sig
  pub signed : p.verifies signing_key (head ++ b'.' ∷ body) sig ≡ true
  pub json : Bytes
  pub decoded : p.decode_base64 body ≡ some json
  pub claims : OidcJwtClaims
  pub raw : Dict Claim
  pub claims_of : (p.decode_claims json ≡ some claims) × (p.decode_raw json ≡ some raw)
  pub valid : IsValid v p now claims raw i

found-some : (o : Option PublicKey) {k : PublicKey} → found_or_not o ≡ ok k → o ≡ some k
found-some (some k) h = ap some (ok-injective h)
found-some none h = absurd (err-ok h)

key-IsKnownKey :
    (p : Provider) (ks : Keys) (now : ℕ) (kid : Bytes) (k : PublicKey)
    → (key p ks now kid).0 ≡ ok k
    → IsKnownKey p ks now kid k
unfolding key
key-IsKnownKey p ks now kid k h = elim (Option-cases (cached_key ks now kid)) [
  | inr (held, cached) ↦
      let same = rw (key, cached) at h in inl (cached ∙ ap some (ok-injective same))
  | inl missing ↦ elim (Result-cases (refresh_keys p now)) [
    | inr (e, failed) ↦ let refused = rw (key, missing, failed) at h in absurd (err-ok refused)
    | inl (fresh, fetched) ↦
        let found = rw (key, missing, fetched) at h in
        inr (fresh, fetched, found-some (cached_key fresh now kid) found)
  ]
]

-- What the first part decodes to.
record IsHeaderOf (p : Provider) (head : Bytes) (h : OidcJwtHeader) : Type 0 where
  json : Bytes
  decoded : p.decode_base64 head ≡ some json
  header_of : p.decode_header json ≡ some h
  algorithm : equal h.alg (codes "RS256") ≡ true
  key_named : is_empty h.kid ≡ false

read_header-IsHeaderOf :
    (p : Provider) (head : Bytes) (h : OidcJwtHeader)
    → read_header p head ≡ ok h
    → IsHeaderOf p head h
unfolding read_header
read_header-IsHeaderOf p head h e =
    let (json, a, e1) = or_err-ok (codes "base64") (p.decode_base64 head) _ e in
    let (found, b, e2) = or_err-ok (codes "json") (p.decode_header json) _ e1 in
    let (c, e3) = unless-ok (not (equal found.alg (codes "RS256")) || is_empty found.kid) _ _ e2 in
    subst (λ (h : OidcJwtHeader). IsHeaderOf p head h) (ok-injective e3)
      record {
        json = json;
        decoded = a;
        header_of = b;
        algorithm = ground (arith, c);
        key_named = ground (arith, c);
      }

check_signed-IsGenuine :
    (v : OidcTokenVerifier) (p : Provider) (ks : Keys) (now : ℕ) (token head body sig_text : Bytes)
    (header : OidcJwtHeader) (k : PublicKey) (i : OidcIdentity)
    → split_on b'.' token ≡ head ∷ body ∷ sig_text ∷ []
    → IsHeaderOf p head header
    → IsKnownKey p ks now header.kid k
    → check_signed v p now head body sig_text k ≡ ok i
    → IsGenuine v p ks now token i
unfolding check_signed
check_signed-IsGenuine v p ks now token head body sig_text header k i parts read known h =
    let (sig, a, h1) = or_err-ok (codes "base64") (p.decode_base64 sig_text) _ h in
    let (b, h2) = unless-ok (not (p.verifies k (head ++ b'.' ∷ body) sig)) _ _ h1 in
    let (json, c, h3) = or_err-ok (codes "base64") (p.decode_base64 body) _ h2 in
    let (claims, d, h4) = or_err-ok (codes "json") (p.decode_claims json) _ h3 in
    let (raw, e, h5) = or_err-ok (codes "json") (p.decode_raw json) _ h4 in
    record {
      head = head;
      body = body;
      sig_text = sig_text;
      parts = parts;
      head_json = read.json;
      head_decoded = read.decoded;
      header = header;
      header_of = read.header_of;
      algorithm = read.algorithm;
      key_named = read.key_named;
      signing_key = k;
      known = known;
      sig = sig;
      sig_decoded = a;
      signed = ground (arith, b);
      json = json;
      decoded = c;
      claims = claims;
      raw = raw;
      claims_of = (d, e);
      valid = check_claims-IsValid v p now claims raw i h5;
    }

verify_parts-IsGenuine :
    (v : OidcTokenVerifier) (p : Provider) (ks : Keys) (now : ℕ) (token : Bytes) (i : OidcIdentity)
    (parts : List Bytes)
    → split_on b'.' token ≡ parts
    → (verify_parts v p ks now parts).0 ≡ ok i
    → IsGenuine v p ks now token i
unfolding verify_parts with_key
verify_parts-IsGenuine v p ks now token i [] s h = absurd (err-ok h)
verify_parts-IsGenuine v p ks now token i (head ∷ []) s h = absurd (err-ok h)
verify_parts-IsGenuine v p ks now token i (head ∷ body ∷ []) s h = absurd (err-ok h)
verify_parts-IsGenuine v p ks now token i (head ∷ body ∷ sig ∷ []) s h =
    elim (Result-cases (read_header p head)) [
      | inr (e, bad) ↦ let refused = rw (verify_parts, bad) at h in absurd (err-ok refused)
      | inl (header, read) ↦
          let checked = rw (verify_parts, read) at h in
          let (k, found, rest) = >>=-ok (key p ks now header.kid).0 _ checked in
          check_signed-IsGenuine v p ks now token head body sig header k i s
            (read_header-IsHeaderOf p head header read) (key-IsKnownKey p ks now header.kid k found)
            rest
    ]
verify_parts-IsGenuine v p ks now token i (head ∷ body ∷ sig ∷ more ∷ rest) s h = absurd (err-ok h)

-- When `verify` gives an identity, the token has three parts; the header that the first decodes
-- to names RS256 and a key; what the third decodes to is a valid signature on the first two by
-- that key, which is held and not older than its time, or which this request fetched from the
-- provider; in the claims that the second decodes to, the issuer and the audience are those of
-- the settings; the time is before the expiry and at most a minute before the beginning; and the
-- identity has the name of the claims, which is not empty, and is an administrator exactly when
-- the settings list the name or one of the groups.
pub verify-IsGenuine :
    (v : OidcTokenVerifier) (p : Provider) (ks : Keys) (now : ℕ) (token : Bytes) (i : OidcIdentity)
    → (verify v p ks now token).0 ≡ ok i
    → IsGenuine v p ks now token i
unfolding verify
verify-IsGenuine v p ks now token i h =
    verify_parts-IsGenuine v p ks now token i (split_on b'.' token) refl h
