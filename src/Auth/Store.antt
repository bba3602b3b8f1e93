-- ===== src/Auth/Store.antt =====
-- services/auth-service/migrations: the tables with their constraints, and what one transaction
-- meets. Columns that no statement of the service reads (the times of the last changes) are left out.
use shearix_platform.Shared.{
  ℕ, String, Bool, true, false, ◌&&◌, ◌||◌, not, Option, none, some, List, any, ◌==◌, str_eq,
  if◌then◌else◌,
}
use shearix_platform.GoTime.{Time}
use shearix_platform.Platform.Ids.{Uuid}

-- public.identities; an empty column is `none`.
pub record IdentityRow : Type 0 where
  pub id : Uuid
  pub name : Option String
  pub email : Option String
  pub phone : Option String
  pub status : String

-- public.credentials
pub record CredentialRow : Type 0 where
  pub identity_id : Uuid
  pub password_hash : String
  pub must_change_password : Bool
  pub delivery_status : String
  pub delivery_attempts : ℕ
  pub delivery_error : Option String
  pub claim_token : Option Uuid
  pub claim_until : Option Time

-- public.tenant_memberships
pub record MembershipRow : Type 0 where
  pub tenant_id : Uuid
  pub identity_id : Uuid
  pub role : String
  pub status : String
  pub created_at : Time

-- public.sessions; the hash of a token is the text of its bytes.
pub record SessionRow : Type 0 where
  pub id : Uuid
  pub tenant_id : Uuid
  pub identity_id : Uuid
  pub token_hash : String
  pub expires_at : Time
  pub revoked_at : Option Time

pub record Db : Type 0 where
  pub identities : List IdentityRow
  pub credentials : List CredentialRow
  pub memberships : List MembershipRow
  pub sessions : List SessionRow

-- ErrNotFound, pgx.ErrNoRows where it is passed on, and any other failure.
pub data RepoError : Type 0 where
  not_found no_rows failed : RepoError

pub data Stmt : Type 0 where
  begin_tx commit_tx select_identity insert_identity insert_credential : Stmt
  insert_membership select_membership update_membership : Stmt
  insert_session select_session update_sessions update_credential : Stmt
  claim_delivery mark_delivery activate_credential : Stmt

-- Which statements fail, the time, the identifiers that gen_random_uuid() and uuid.New give, and
-- lower() of the database.
pub record Env : Type 0 where
  pub fails : Stmt → Bool
  pub now : Time
  pub new_id : Uuid
  pub claim : Uuid
  pub lower : String → String

-- COALESCE(column,'')
abbrev pub or_empty : Option String → String
or_empty none = ""
or_empty (some s) = s

-- NULLIF(text,'')
abbrev pub null_if_empty : String → Option String
null_if_empty s = if str_eq s "" then none else some s

-- A column equals a text; NULL equals nothing.
abbrev pub is_value : Option String → String → Bool
is_value none s = false
is_value (some t) s = str_eq t s

-- WHERE lower(email)=lower($1)
unfoldable pub has_email : (String → String) → String → IdentityRow → Bool
has_email lower email i = elim i.email [ none ↦ false | some e ↦ str_eq (lower e) (lower email) ]

-- The unique indexes of identities: the email, its lower form, and the phone.
unfoldable pub clashes_with : (String → String) → IdentityRow → IdentityRow → Bool
unfolding has_email
clashes_with lower new old =
    new.id == old.id
    || elim new.email [ none ↦ false | some e ↦ is_value old.email e || has_email lower e old ]
    || elim new.phone [ none ↦ false | some p ↦ is_value old.phone p ]

-- WHERE tenant_id=$1 AND identity_id=$2
unfoldable pub is_member : Uuid → Uuid → MembershipRow → Bool
is_member tenant identity m = m.tenant_id == tenant && m.identity_id == identity

unfoldable pub is_active_member : Uuid → Uuid → MembershipRow → Bool
unfolding is_member
is_active_member tenant identity m = is_member tenant identity m && str_eq m.status "active"

-- An active owner of the tenant, other than the given identity.
unfoldable pub is_other_owner : Uuid → Uuid → MembershipRow → Bool
is_other_owner tenant identity m =
    m.tenant_id == tenant
    && not (m.identity_id == identity)
    && str_eq m.role "OWNER"
    && str_eq m.status "active"

-- prevent_last_active_owner_change: the change is refused.
unfoldable pub leaves_no_owner : MembershipRow → MembershipRow → List MembershipRow → Bool
unfolding is_other_owner
leaves_no_owner old new rows =
    str_eq old.role "OWNER"
    && str_eq old.status "active"
    && (not (str_eq new.role "OWNER") || not (str_eq new.status "active"))
    && not (any (is_other_owner old.tenant_id old.identity_id) rows)

-- revoked_at IS NULL AND expires_at>clock_timestamp()
abbrev pub is_unrevoked : SessionRow → Bool
is_unrevoked s = elim s.revoked_at [ none ↦ true | some t ↦ false ]
