-- ===== src/Auth/Repository.antt =====
-- services/auth-service/internal/repository/repository.go: the transactions on the tables.
pub mod Sessions
pub mod Owners
pub mod Roles
pub mod Live
pub mod Members
pub mod Deliveries
use shearix_platform.Shared.{
  ℕ, ◌+◌, String, Bool, true, false, ◌&&◌, ◌||◌, not, Option, none, some, List, [], ◌∷◌, map, any,
  first, select, all, leb, length, codes, ◌==◌, str_eq, Result, ok, err, if◌then◌else◌, ℤ, pos,
}
use shearix_platform.Shared.Actions.{Action, ◌>>=◌, ◌>>◌, done, fail, stop_if, query, write, must}
use shearix_platform.GoTime.{Time, add, before, after}
use shearix_platform.Platform.Ids.{Uuid}
use shearix_platform.Platform.Transactions.{transaction}
use shearix_platform.Auth.Domain.{StaffPrincipal, Member, OwnerState, valid_role}
use shearix_platform.Auth.Store.{
  IdentityRow, CredentialRow, MembershipRow, SessionRow, Db, RepoError, not_found, no_rows, failed,
  Stmt, begin_tx, commit_tx, select_identity, insert_identity, insert_credential, insert_membership,
  select_membership, update_membership, insert_session, select_session, update_sessions,
  claim_delivery, mark_delivery, activate_credential, Env, or_empty, null_if_empty, has_email,
  clashes_with, is_member, is_active_member, leaves_no_owner, is_unrevoked,
}

-- Credential
pub record Credential : Type 0 where
  pub identity_id : Uuid
  pub name : String
  pub phone : String
  pub email : String
  pub password_hash : String
  pub must_change_password : Bool
  pub delivery_status : String
  pub active : Bool

pub record RegistrationResult : Type 0 where
  pub identity_id : Uuid
  pub created_identity : Bool
  pub created_membership : Bool
  pub role : String

-- A statement is sent: it may fail.
unfoldable pub sent : Env → Stmt → Action RepoError Db (Unit {0})
unfolding stop_if
sent env stmt = stop_if (env.fails stmt) failed

-- WithTenantTx
unfoldable pub in_tenant_tx : {A : Type 0} → Env → Action RepoError Db A → Action RepoError Db A
unfolding transaction
in_tenant_tx env body = transaction (env.fails begin_tx) (env.fails commit_tx) failed body

-- JOIN public.credentials c ON c.identity_id=i.id
unfoldable pub credential_of : Uuid → List CredentialRow → Option CredentialRow
credential_of id rows = first (λ (c : CredentialRow). c.identity_id == id) rows

-- JOIN public.identities i ON i.id=...
unfoldable pub identity_of : Uuid → List IdentityRow → Option IdentityRow
identity_of id rows = first (λ (i : IdentityRow). i.id == id) rows

unfoldable pub credential : IdentityRow → CredentialRow → Credential
credential i c = record {
  identity_id = i.id;
  name = or_empty i.name;
  phone = or_empty i.phone;
  email = or_empty i.email;
  password_hash = c.password_hash;
  must_change_password = c.must_change_password;
  delivery_status = c.delivery_status;
  active = str_eq i.status "active";
}

-- The row that CredentialByEmail finds: an identity with the email that has a credential.
unfoldable pub find_by_email :
    (String → String) → String → List CredentialRow → List IdentityRow → Option Credential
unfolding has_email credential_of credential
find_by_email lower email creds [] = none
find_by_email lower email creds (i ∷ rest) =
    let later = find_by_email lower email creds rest in
    if has_email lower email i
    then elim (credential_of i.id creds) [ none ↦ later | some c ↦ some (credential i c) ]
    else later

-- CredentialByEmail
unfoldable pub credential_by_email : Env → String → Action RepoError Db Credential
unfolding ◌>>=◌ ◌>>◌ sent query must find_by_email
credential_by_email env email = do
  sent env select_identity
  found ← query (λ db. find_by_email env.lower email db.credentials db.identities)
  must not_found found

unfoldable pub new_identity : Env → String → String → String → IdentityRow
new_identity env name email phone = record {
  id = env.new_id;
  name = some name;
  email = some email;
  phone = null_if_empty phone;
  status = "active";
}

-- phone ~ '^\+[0-9]{8,15}$'
unfoldable pub is_e164 : List ℕ → Bool
is_e164 [] = false
is_e164 (c ∷ rest) =
    c == b'+'
    && leb 8 (length rest)
    && leb (length rest) 15
    && all (λ d. leb b'0' d && leb d b'9') rest

-- The CHECK constraints of an identity.
unfoldable pub identity_checks : IdentityRow → Bool
unfolding is_e164
identity_checks i =
    elim i.name [ none ↦ true | some n ↦ leb 1 (length (codes n)) && leb (length (codes n)) 200 ]
    && elim i.phone [ none ↦ true | some p ↦ is_e164 (codes p) ]

unfoldable pub new_credential : Uuid → String → CredentialRow
new_credential identity hash = record {
  identity_id = identity;
  password_hash = hash;
  must_change_password = true;
  delivery_status = "pending";
  delivery_attempts = 0;
  delivery_error = none;
  claim_token = none;
  claim_until = none;
}

abbrev pub with_identity : IdentityRow → Db → Db
with_identity i db = record db { identities = i ∷ db.identities }

abbrev pub with_credential : CredentialRow → Db → Db
with_credential c db = record db { credentials = c ∷ db.credentials }

abbrev pub with_membership : MembershipRow → Db → Db
with_membership m db = record db { memberships = m ∷ db.memberships }

abbrev pub with_session : SessionRow → Db → Db
with_session s db = record db { sessions = s ∷ db.sessions }

-- The identity with the email, if the insert did nothing; a new identity and its credential else.
unfoldable pub ensure_identity :
    Env → IdentityRow → String → String → Bool → Action RepoError Db (Uuid × Bool)
unfolding ◌>>=◌ ◌>>◌ sent query must write done new_credential
ensure_identity env i email hash true = do
  sent env select_identity
  found ← query (λ db. first (has_email env.lower email) db.identities)
  old ← must no_rows found
  done (old.id, false)
ensure_identity env i email hash false = do
  write (with_identity i)
  sent env insert_credential
  write (with_credential (new_credential i.id hash))
  done (i.id, true)

unfoldable pub new_membership : Env → Uuid → Uuid → String → MembershipRow
new_membership env tenant identity role = record {
  tenant_id = tenant;
  identity_id = identity;
  role = role;
  status = "active";
  created_at = env.now;
}

-- INSERT INTO public.tenant_memberships ... ON CONFLICT DO NOTHING: whether a row was inserted.
unfoldable pub ensure_membership : MembershipRow → Bool → Action RepoError Db Bool
unfolding ◌>>◌ write done
ensure_membership m true = done false
ensure_membership m false = do write (with_membership m); done true

-- The membership of the identity that was found or created.
unfoldable pub register_membership :
    Env → Uuid → String → Uuid × Bool → Action RepoError Db RegistrationResult
unfolding ◌>>=◌ ◌>>◌ sent stop_if query must done valid_role new_membership ensure_membership
register_membership env tenant role identity = do
  sent env insert_membership
  stop_if (not (valid_role role)) failed
  there ← query (λ db. any (is_member tenant identity.0) db.memberships)
  created ← ensure_membership (new_membership env tenant identity.0 role) there
  sent env select_membership
  found ← query (λ db. first (is_member tenant identity.0) db.memberships)
  m ← must no_rows found
  done (record {
    identity_id = identity.0;
    created_identity = identity.1;
    created_membership = created;
    role = m.role;
  })

-- INSERT INTO public.identities ... ON CONFLICT DO NOTHING, and what follows.
unfoldable pub register_body :
    Env → Uuid → String → String → String → String → String → Action RepoError Db RegistrationResult
unfolding ◌>>=◌ ◌>>◌ sent stop_if query new_identity identity_checks clashes_with ensure_identity
    register_membership
register_body env tenant name email phone role hash = do
  sent env insert_identity
  stop_if (not (identity_checks (new_identity env name email phone))) failed
  clash ←
      query (λ db. any (clashes_with env.lower (new_identity env name email phone)) db.identities)
  identity ← ensure_identity env (new_identity env name email phone) email hash clash
  register_membership env tenant role identity

-- Register
unfoldable pub register :
    Env → Uuid → String → String → String → String → String → Action RepoError Db RegistrationResult
unfolding in_tenant_tx register_body
register env tenant name email phone role hash =
    in_tenant_tx env (register_body env tenant name email phone role hash)

-- UPDATE public.credentials SET ... WHERE ...
unfoldable pub update_credentials :
    (CredentialRow → Bool)
    → (CredentialRow → CredentialRow)
    → List CredentialRow
    → List CredentialRow
update_credentials p f [] = []
update_credentials p f (c ∷ rest) = (if p c then f c else c) ∷ update_credentials p f rest

abbrev pub change_credentials : (CredentialRow → Bool) → (CredentialRow → CredentialRow) → Db → Db
change_credentials p f db = record db { credentials = update_credentials p f db.credentials }

-- One UPDATE of credentials: whether it met a row.
unfoldable pub updated_any :
    Env → Stmt → (CredentialRow → Bool) → (CredentialRow → CredentialRow) → Action RepoError Db Bool
unfolding ◌>>=◌ ◌>>◌ sent query write done update_credentials
updated_any env stmt p f = do
  sent env stmt
  hit ← query (λ db. any p db.credentials)
  write (change_credentials p f)
  done hit
