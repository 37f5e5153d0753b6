-- ===== src/Auth/Identity.antt =====
-- internal/server/api/api.go: who a request comes from, and what it may see. The session of a request,
-- the scopes and permissions of a subject in the database, and the parsing of addresses are
-- parameters; the clock is read once for a request.
use bongsu.Prelude.{
  Bool, true, false, not, ◌&&◌, ◌||◌, Option, none, some, List, [], ◌∷◌, if◌then◌else◌, any_of,
}
use bongsu.Text.{Bytes, codes, equal, is_empty}
use bongsu.Text.Dict.{Dict, get}
use bongsu.TokenStore.{ApiTokenEntry}
use bongsu.Rbac.{AccessScope, no_scope, merge_access_scopes, can_read_host}
use bongsu.Auth.{append_unique_string, append_each, user_subject}
use bongsu.Auth.Credentials.{
  Request, User, Server, match_key, or_text, trusted_identity, oidc_identity, token_entry,
}

abbrev pub is_admin_entry : Option ApiTokenEntry → Bool
is_admin_entry none = false
is_admin_entry (some e) = equal e.role (codes "admin")

abbrev pub is_admin_user : Option User → Bool
is_admin_user none = false
is_admin_user (some u) = equal u.role (codes "admin")

unfoldable pub authenticate_admin : Server → Request → Bool
unfolding match_key token_entry trusted_identity oidc_identity equal
authenticate_admin s r =
    match_key r.x_api_key s.api_key
    || is_admin_entry (token_entry s r)
    || is_admin_user s.session_user
    || (trusted_identity s r).admin
    || (oidc_identity s r).admin

unfoldable pub authenticate_agent : Server → Request → Bool
unfolding match_key
authenticate_agent s r = match_key r.x_api_key s.agent_key || match_key r.x_api_key s.api_key

unfoldable pub authenticate_install : Server → Request → Bool
unfolding match_key authenticate_admin
authenticate_install s r =
    (not (is_empty s.install_token) && match_key r.x_install_token s.install_token)
    || authenticate_admin s r

-- The subject of a key of the configuration.
unfoldable pub key_subject : Dict Bytes → Bytes → List Bytes
unfolding get append_unique_string
key_subject viewer_keys k =
    if is_empty k then [] else append_unique_string [] (or_text [] (get k viewer_keys))

abbrev pub viewer_subject_of : Option ApiTokenEntry → List Bytes
viewer_subject_of none = []
viewer_subject_of (some e) =
    if equal e.role (codes "viewer") && not (is_empty e.subject) then e.subject ∷ [] else []

unfoldable pub viewer_subjects : Server → Request → List Bytes
unfolding key_subject token_entry trusted_identity oidc_identity append_each equal
viewer_subjects s r =
    let with_key = key_subject s.viewer_keys r.x_api_key in
    let with_token = append_each with_key (viewer_subject_of (token_entry s r)) in
    let with_trusted = append_each with_token (trusted_identity s r).subjects in
    append_each with_trusted (oidc_identity s r).subjects

abbrev pub is_nil : List Bytes → Bool
is_nil [] = true
is_nil (x ∷ xs) = false

abbrev pub has_session : Option User → Bool
has_session none = false
has_session (some u) = true

unfoldable pub authenticate_web : Server → Request → Bool
unfolding authenticate_admin viewer_subjects
authenticate_web s r =
    if s.web_auth
    then authenticate_admin s r || not (is_nil (viewer_subjects s r)) || has_session s.session_user
    else true

unfoldable pub authenticate_export : Server → Request → Bool
unfolding authenticate_admin viewer_subjects
authenticate_export s r =
    authenticate_admin s r || not (is_nil (viewer_subjects s r)) || has_session s.session_user

abbrev pub all_scope : AccessScope
all_scope = record no_scope { all = true }

-- The loop over the subjects; a query that fails gives no scope.
unfoldable pub scopes_of : (Bytes → Option AccessScope) → List Bytes → List AccessScope
scopes_of get_scope [] = []
scopes_of get_scope (subject ∷ subjects) = elim (get_scope subject) [
  | none ↦ scopes_of get_scope subjects
  | some scope ↦ scope ∷ scopes_of get_scope subjects
]

unfoldable pub access_scope : (Bytes → Option AccessScope) → Server → Request → AccessScope
unfolding authenticate_admin viewer_subjects scopes_of merge_access_scopes
access_scope get_access_scope s r =
    if authenticate_admin s r || not s.web_auth
    then all_scope
    else if is_admin_user s.session_user
    then all_scope
    else if is_nil (viewer_subjects s r)
    then no_scope
    else merge_access_scopes (scopes_of get_access_scope (viewer_subjects s r))

unfoldable pub export_scope : (Bytes → Option AccessScope) → Server → Request → AccessScope
unfolding authenticate_admin viewer_subjects scopes_of merge_access_scopes
export_scope get_export_scope s r =
    if authenticate_admin s r
    then all_scope
    else if is_nil (viewer_subjects s r)
    then no_scope
    else merge_access_scopes (scopes_of get_export_scope (viewer_subjects s r))

-- `canReadHost` of the server.
unfoldable pub may_read_host : (Bytes → Option AccessScope) → Server → Request → Bytes → Bool
unfolding access_scope can_read_host
may_read_host get_access_scope s r host_id =
    can_read_host (access_scope get_access_scope s r) host_id

abbrev pub allows : Option Bool → Bool
allows none = false
allows (some b) = b

-- `permits` is `HasResourcePermission` for the CVE database.
unfoldable pub can_read_cve_db : (Bytes → Option Bool) → Server → Request → Bool
unfolding authenticate_admin viewer_subjects
can_read_cve_db permits s r =
    if authenticate_admin s r || not s.web_auth
    then true
    else any_of (λ (subject : Bytes). allows (permits subject)) (viewer_subjects s r)

abbrev pub first_of : List Bytes → Option Bytes
first_of [] = none
first_of (x ∷ xs) = some x

-- `actorID`, by the first that holds.
unfoldable pub actor_id : Server → Request → Bytes
unfolding trusted_identity oidc_identity viewer_subjects authenticate_admin authenticate_agent
actor_id s r = elim s.session_user [
  | some u ↦ u.username
  | none ↦
      if not (is_empty (trusted_identity s r).user)
      then user_subject (trusted_identity s r).user
      else if not (is_empty (oidc_identity s r).user)
      then user_subject (oidc_identity s r).user
      else elim (first_of (viewer_subjects s r)) [
        | some subject ↦ subject
        | none ↦
            if authenticate_admin s r
            then codes "admin"
            else if authenticate_agent s r
            then codes "agent"
            else []
      ]
]

unfoldable pub actor_type : Server → Request → Bytes
unfolding trusted_identity oidc_identity viewer_subjects authenticate_admin authenticate_agent
actor_type s r =
    if authenticate_admin s r
    then codes "admin"
    else if authenticate_agent s r
    then codes "agent"
    else elim s.session_user [
      | some u ↦ u.role
      | none ↦
          if not (is_empty (trusted_identity s r).user)
          then codes "trusted_user"
          else if not (is_empty (oidc_identity s r).user)
          then codes "oidc_user"
          else if is_nil (viewer_subjects s r)
          then codes "anonymous"
          else codes "viewer"
    ]
