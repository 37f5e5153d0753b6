-- ===== src/Auth/Laws.antt =====
-- What an identity lets a request do.
use bongsu.Prelude.{
  ◌≡◌, refl, ap, ◌∙◌, Bool, true, false, ◌&&◌, ◌||◌, Option, none, some, List, [], ◌∷◌, arith,
  any_of, Bool-cases, Option-cases, inl, inr,
}
use bongsu.Text.{Bytes, is_empty}
use bongsu.Rbac.{AccessScope, no_scope, can_read_host}
use bongsu.Rbac.Laws.{can_read_host-merge_access_scopes}
use bongsu.Auth.Keys.{no_identity}
use bongsu.Auth.Identity.{
  authenticate_admin, viewer_subjects, is_admin_user, is_nil, scopes_of, access_scope, all_scope,
  may_read_host,
}
use bongsu.Auth.Credentials.{
  Request, Server, trusts_remote_addr, trusted_identity, token_entry, oidc_identity,
}

-- The scope of a subject allows the host; a query that fails allows nothing.
abbrev pub allows_host : Option AccessScope → Bytes → Bool
allows_host none host_id = false
allows_host (some scope) host_id = can_read_host scope host_id

any_of-scopes_of :
    (get_scope : Bytes → Option AccessScope) (subjects : List Bytes) (host_id : Bytes)
    → any_of (λ (scope : AccessScope). can_read_host scope host_id) (scopes_of get_scope subjects)
      ≡ any_of (λ (subject : Bytes). allows_host (get_scope subject) host_id) subjects
unfolding scopes_of
any_of-scopes_of get_scope [] host_id = refl
any_of-scopes_of get_scope (subject ∷ subjects) host_id =
    let ih = any_of-scopes_of get_scope subjects host_id in
    elim (Option-cases (get_scope subject)) [
      | inl failed ↦ rw (scopes_of, failed) ih
      | inr (scope, found) ↦
          rw (scopes_of, found) (ap (λ (b : Bool). can_read_host scope host_id || b) ih)
    ]

no_subjects :
    (subjects : List Bytes) (p : Bytes → Bool) → is_nil subjects ≡ true → any_of p subjects ≡ false
no_subjects [] p h = refl
no_subjects (x ∷ xs) p h = absurd (ground (arith, h))

can_read_host-all : (host_id : Bytes) → can_read_host all_scope host_id ≡ true
unfolding can_read_host
can_read_host-all host_id = refl

-- The second test for an administrator's session adds nothing to the first.
admin_session :
    (s : Server) (r : Request)
    → authenticate_admin s r ≡ false
    → is_admin_user s.session_user ≡ false
unfolding authenticate_admin
admin_session s r h = ground (arith, h)

can_read_host-no : (host_id : Bytes) → can_read_host no_scope host_id ≡ false
unfolding can_read_host
can_read_host-no host_id = ground arith

-- With authentication of the web on, `canReadHost` of the server allows a request a host, whose
-- id is not empty, exactly when the request is authenticated as an administrator or the scope of
-- one of its subjects, whose query does not fail, allows the host.
pub may_read_host-grants :
    (get_access_scope : Bytes → Option AccessScope) (s : Server) (r : Request) (host_id : Bytes)
    → s.web_auth ≡ true
    → is_empty host_id ≡ false
    → may_read_host get_access_scope s r host_id ≡ (
        authenticate_admin s r
        || any_of
            (λ (subject : Bytes). allows_host (get_access_scope subject) host_id)
            (viewer_subjects s r))
unfolding may_read_host access_scope
may_read_host-grants get_access_scope s r host_id web named =
    elim (Bool-cases (authenticate_admin s r)) [
      | inl admin ↦ rw (may_read_host, access_scope, admin) (can_read_host-all host_id)
      | inr viewer ↦
          let no_session = admin_session s r viewer in
          let subjects = viewer_subjects s r in
          elim (Bool-cases (is_nil subjects)) [
            | inl nobody ↦
                rw
                  (
                    may_read_host,
                    access_scope,
                    viewer,
                    web,
                    no_session,
                    nobody,
                    no_subjects subjects
                        (λ (subject : Bytes). allows_host (get_access_scope subject) host_id)
                        nobody,
                  )
                  (can_read_host-no host_id)
            | inr somebody ↦
                rw (may_read_host, access_scope, viewer, web, no_session, somebody)
                  (can_read_host-merge_access_scopes (scopes_of get_access_scope subjects) host_id
                      named
                    ∙ any_of-scopes_of get_access_scope subjects host_id)
          ]
    ]

trusted_identity-untrusted :
    (s : Server) (r : Request)
    → trusts_remote_addr s.addresses s.trusted_auth r.remote_addr ≡ false
    → trusted_identity s r ≡ no_identity
unfolding trusted_identity
trusted_identity-untrusted s r h =
    elim (Bool-cases
      (is_empty s.trusted_auth.user_header && is_empty s.trusted_auth.groups_header)) [
        | inl off ↦ rw (trusted_identity, off) refl
        | inr on ↦ rw (trusted_identity, on, h) refl
      ]

-- When the remote address is not in a network of the proxies, a request that differs in the
-- identity headers alone is authenticated as an administrator if and only if the first is, and
-- has the same subjects.
pub untrusted_headers :
    (s : Server) (r : Request) (forged : Bytes → Bytes)
    → trusts_remote_addr s.addresses s.trusted_auth r.remote_addr ≡ false
    → let f = record r { header = forged } in
      (authenticate_admin s f ≡ authenticate_admin s r)
      × (viewer_subjects s f ≡ viewer_subjects s r)
unfolding authenticate_admin viewer_subjects token_entry oidc_identity
untrusted_headers s r forged h =
    let f = record r { header = forged } in
    let here = trusted_identity-untrusted s r h in
    let there = trusted_identity-untrusted s f h in
    (rw (authenticate_admin, here, there) refl, rw (viewer_subjects, here, there) refl)
