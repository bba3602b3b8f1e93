-- ===== src/Auth/Repository/Sessions.antt =====
-- services/auth-service/internal/repository/repository.go: sessions, passwords and the lists of members.
pub mod Lists
use shearix_platform.Shared.{
  String, Bool, true, false, ◌&&◌, not, ◌||◌, Option, none, some, List, [], ◌∷◌, any, first, ◌==◌,
  str_eq, if◌then◌else◌,
}
use shearix_platform.Shared.Actions.{Action, ◌>>=◌, ◌>>◌, done, stop_if, query, write, must}
use shearix_platform.GoTime.{Time, before}
use shearix_platform.Platform.Ids.{Uuid}
use shearix_platform.Auth.Domain.{StaffPrincipal, Member, OwnerState}
use shearix_platform.Auth.Store.{
  IdentityRow, CredentialRow, MembershipRow, SessionRow, Db, RepoError, not_found, failed,
  insert_session, select_session, select_membership, select_identity, update_sessions,
  update_credential, Env, or_empty, is_active_member, is_unrevoked,
}
use shearix_platform.Auth.Repository.{
  sent, in_tenant_tx, credential_of, identity_of, with_session, change_credentials,
  update_credentials,
}
use shearix_platform.Auth.Repository.Members.{joined_member}

-- JOIN of an active identity with its credential.
unfoldable pub active_account : Uuid → Db → Option (IdentityRow × CredentialRow)
unfolding credential_of identity_of
active_account id db = elim (identity_of id db.identities) [
  | none ↦ none
  | some i ↦ elim (credential_of id db.credentials) [
    | none ↦ none
    | some c ↦ if str_eq i.status "active" then some (i, c) else none
  ]
]

unfoldable pub principal_of :
    Uuid → Uuid → Uuid → MembershipRow → IdentityRow × CredentialRow → StaffPrincipal
principal_of tenant identity session m (i, c) = record {
  identity_id = identity;
  name = or_empty i.name;
  email = or_empty i.email;
  phone = or_empty i.phone;
  must_change_password = c.must_change_password;
  role = m.role;
  tenant_id = tenant;
  session_id = session;
}

-- UNIQUE (tenant_id, token_hash), and the primary key.
unfoldable pub clashes_session : SessionRow → SessionRow → Bool
clashes_session new s =
    new.id == s.id || new.tenant_id == s.tenant_id && str_eq new.token_hash s.token_hash

unfoldable pub new_session : Env → Uuid → Uuid → String → Time → SessionRow
new_session env tenant identity hash expires = record {
  id = env.new_id;
  tenant_id = tenant;
  identity_id = identity;
  token_hash = hash;
  expires_at = expires;
  revoked_at = none;
}

unfoldable pub create_session_body :
    Env → Uuid → Uuid → String → Time → Action RepoError Db StaffPrincipal
unfolding ◌>>=◌ ◌>>◌ sent query must write done stop_if is_active_member active_account principal_of
    clashes_session new_session
create_session_body env tenant identity hash expires = do
  sent env select_membership
  found ← query (λ db. first (is_active_member tenant identity) db.memberships)
  m ← must not_found found
  sent env select_identity
  account ← query (active_account identity)
  a ← must not_found account
  sent env insert_session
  clash ←
      query (λ db. any (clashes_session (new_session env tenant identity hash expires)) db.sessions)
  stop_if clash failed
  write (with_session (new_session env tenant identity hash expires))
  done (principal_of tenant identity env.new_id m a)

-- CreateSession
unfoldable pub create_session :
    Env → Uuid → Uuid → String → Time → Action RepoError Db StaffPrincipal
unfolding in_tenant_tx create_session_body
create_session env tenant identity hash expires =
    in_tenant_tx env (create_session_body env tenant identity hash expires)

-- tenant_id=$1 AND token_hash=$2 AND revoked_at IS NULL; a nil hash is NULL and equals nothing.
unfoldable pub is_token_session : Uuid → Option String → SessionRow → Bool
is_token_session tenant none s = false
is_token_session tenant (some hash) s =
    s.tenant_id == tenant && str_eq s.token_hash hash && is_unrevoked s

unfoldable pub is_live_session : Time → Uuid → Option String → SessionRow → Bool
unfolding is_token_session
is_live_session now tenant hash s = is_token_session tenant hash s && before now s.expires_at

-- What the query of Session joins to one session.
unfoldable pub session_principal : Uuid → Db → SessionRow → Option StaffPrincipal
unfolding active_account is_active_member principal_of
session_principal tenant db s =
    elim (first (is_active_member tenant s.identity_id) db.memberships) [
      | none ↦ none
      | some m ↦ elim (active_account s.identity_id db) [
        | none ↦ none
        | some a ↦ some (principal_of tenant s.identity_id s.id m a)
      ]
    ]

unfoldable pub find_session :
    Time → Uuid → Option String → Db → List SessionRow → Option StaffPrincipal
unfolding is_live_session session_principal
find_session now tenant hash db [] = none
find_session now tenant hash db (s ∷ rest) =
    let later = find_session now tenant hash db rest in
    if is_live_session now tenant hash s
    then elim (session_principal tenant db s) [ none ↦ later | some p ↦ some p ]
    else later

-- Session
unfoldable pub get_session : Env → Uuid → Option String → Action RepoError Db StaffPrincipal
unfolding in_tenant_tx ◌>>=◌ ◌>>◌ sent query must find_session
get_session env tenant hash = in_tenant_tx env do
  sent env select_session
  found ← query (λ db. find_session env.now tenant hash db db.sessions)
  must not_found found

-- UPDATE public.sessions SET revoked_at=clock_timestamp() WHERE ...
unfoldable pub revoke_sessions : Time → (SessionRow → Bool) → List SessionRow → List SessionRow
revoke_sessions now p [] = []
revoke_sessions now p (s ∷ rest) =
    (if p s then record s { revoked_at = some now } else s) ∷ revoke_sessions now p rest

abbrev pub with_revoked : Time → (SessionRow → Bool) → Db → Db
with_revoked now p db = record db { sessions = revoke_sessions now p db.sessions }

-- RevokeSession
unfoldable pub revoke_session : Env → Uuid → Option String → Action RepoError Db (Unit {0})
unfolding in_tenant_tx ◌>>◌ sent write is_token_session revoke_sessions
revoke_session env tenant hash =
    in_tenant_tx env
      do sent env update_sessions; write (with_revoked env.now (is_token_session tenant hash))

-- revoke_identity_sessions: every unrevoked session of the identity but the one to keep.
unfoldable pub is_other_session : Uuid → Option Uuid → SessionRow → Bool
is_other_session identity none s = s.identity_id == identity && is_unrevoked s
is_other_session identity (some keep) s =
    s.identity_id == identity && is_unrevoked s && not (s.id == keep)

-- The UPDATE of the password and the revocation of the identity's sessions.
unfoldable pub replace_password :
    Env → Uuid → Option Uuid → String → Bool → Action RepoError Db (Unit {0})
unfolding ◌>>◌ sent write update_credentials is_other_session revoke_sessions
replace_password env identity keep hash must_change = do
  sent env update_credential
  write (
      change_credentials (λ c. c.identity_id == identity)
        (λ c. record c { password_hash = hash; must_change_password = must_change }))
  sent env update_sessions
  write (with_revoked env.now (is_other_session identity keep))

unfoldable pub change_password_body :
    Env → Uuid → Uuid → Uuid → String → Action RepoError Db (Unit {0})
unfolding ◌>>=◌ ◌>>◌ sent query stop_if is_active_member replace_password
change_password_body env tenant identity keep hash = do
  sent env select_membership
  active ← query (λ db. any (is_active_member tenant identity) db.memberships)
  stop_if (not active) not_found
  replace_password env identity (some keep) hash false

-- ChangePassword
unfoldable pub change_password : Env → Uuid → Uuid → Uuid → String → Action RepoError Db (Unit {0})
unfolding in_tenant_tx change_password_body
change_password env tenant identity keep hash =
    in_tenant_tx env (change_password_body env tenant identity keep hash)

unfoldable pub reset_active : Env → Uuid → String → Bool → Action RepoError Db Bool
unfolding ◌>>◌ done replace_password
reset_active env identity hash false = done false
reset_active env identity hash true = do replace_password env identity none hash true; done true

-- ResetPassword
unfoldable pub reset_password : Env → Uuid → Uuid → String → Action RepoError Db Bool
unfolding in_tenant_tx ◌>>=◌ ◌>>◌ sent query is_active_member reset_active
reset_password env tenant identity hash = in_tenant_tx env do
  sent env select_membership
  active ← query (λ db. any (is_active_member tenant identity) db.memberships)
  reset_active env identity hash active
