-- ===== src/Auth/Repository/Owners.antt =====
-- services/auth-service/internal/repository/repository.go: the owners of the tenants under each
-- transaction.
use shearix_platform.Shared.{
  String, Bool, true, false, not, ◌≡◌, refl, ◌∙◌, Option, List, any, select, str_eq, arith,
}
use shearix_platform.Shared.Actions.{◌>>=◌, ◌>>◌, go_on, done, stop_if, query, write, must}
use shearix_platform.GoTime.{Time}
use shearix_platform.Platform.Ids.{Uuid}
use shearix_platform.Platform.Transactions.{transaction, atomic, rolled_back}
use shearix_platform.Platform.Transactions.Keeping.{guard-Leaves, transaction-Leaves, bind-Leaves}
use shearix_platform.Auth.Domain.{Member, OwnerState}
use shearix_platform.Auth.Store.{
  IdentityRow, MembershipRow, Db, failed, insert_identity, begin_tx, commit_tx, Env, clashes_with,
  is_member, is_active_member,
}
use shearix_platform.Auth.Repository.{
  sent, in_tenant_tx, credential_by_email, ensure_identity, ensure_membership, new_membership,
  register_body, register_membership, new_identity, identity_checks, register, updated_any,
}
use shearix_platform.Auth.Repository.Deliveries.{
  claim_initial_delivery, mark_initial_delivery, activate_retried_credential,
}
use shearix_platform.Auth.Repository.Members.{get_member, has_active_membership, barber_eligible}
use shearix_platform.Auth.Repository.Sessions.{
  create_session, create_session_body, get_session, revoke_session, replace_password,
  change_password, change_password_body, reset_password, reset_active,
}
use shearix_platform.Auth.Repository.Sessions.Lists.{list_members, list_owners}

abbrev pub is_owner : MembershipRow → Bool
is_owner m = str_eq m.role "OWNER"

-- The memberships of owners.
unfoldable pub owner_rows : Db → List MembershipRow
owner_rows db = select is_owner db.memberships

pub claim_initial_delivery-owner_rows :
    (env : Env) (identity : Uuid) (db : Db)
    → owner_rows (claim_initial_delivery env identity db).1 ≡ owner_rows db
unfolding claim_initial_delivery updated_any in_tenant_tx transaction atomic rolled_back sent ◌>>=◌
    ◌>>◌ go_on stop_if query must write done owner_rows
claim_initial_delivery-owner_rows env identity db = ground arith

pub mark_initial_delivery-owner_rows :
    (env : Env) (identity claim : Uuid) (status problem : String) (db : Db)
    → owner_rows (mark_initial_delivery env identity claim status problem db).1 ≡ owner_rows db
unfolding mark_initial_delivery updated_any in_tenant_tx transaction atomic rolled_back sent ◌>>=◌
    ◌>>◌ go_on stop_if query must write done owner_rows
mark_initial_delivery-owner_rows env identity claim status problem db = ground arith

pub activate_retried_credential-owner_rows :
    (env : Env) (identity claim : Uuid) (hash : String) (db : Db)
    → owner_rows (activate_retried_credential env identity claim hash db).1 ≡ owner_rows db
unfolding activate_retried_credential updated_any in_tenant_tx transaction atomic rolled_back sent
    ◌>>=◌ ◌>>◌ go_on stop_if query must write done owner_rows
activate_retried_credential-owner_rows env identity claim hash db = ground arith

pub create_session-owner_rows :
    (env : Env) (tenant identity : Uuid) (hash : String) (expires : Time) (db : Db)
    → owner_rows (create_session env tenant identity hash expires db).1 ≡ owner_rows db
unfolding create_session create_session_body in_tenant_tx transaction atomic rolled_back sent ◌>>=◌
    ◌>>◌ go_on stop_if query must write done owner_rows
create_session-owner_rows env tenant identity hash expires db = ground arith

pub revoke_session-owner_rows :
    (env : Env) (tenant : Uuid) (hash : Option String) (db : Db)
    → owner_rows (revoke_session env tenant hash db).1 ≡ owner_rows db
unfolding revoke_session in_tenant_tx transaction atomic rolled_back sent ◌>>=◌ ◌>>◌ go_on stop_if
    query must write done owner_rows
revoke_session-owner_rows env tenant hash db = ground arith

pub change_password-owner_rows :
    (env : Env) (tenant identity keep : Uuid) (hash : String) (db : Db)
    → owner_rows (change_password env tenant identity keep hash db).1 ≡ owner_rows db
unfolding change_password change_password_body replace_password in_tenant_tx transaction atomic
    rolled_back sent ◌>>=◌ ◌>>◌ go_on stop_if query must write done owner_rows
change_password-owner_rows env tenant identity keep hash db = ground arith

pub credential_by_email-owner_rows :
    (env : Env) (email : String) (db : Db)
    → owner_rows (credential_by_email env email db).1 ≡ owner_rows db
unfolding credential_by_email in_tenant_tx transaction atomic rolled_back sent ◌>>=◌ ◌>>◌ go_on
    stop_if query must write done owner_rows
credential_by_email-owner_rows env email db = ground arith

pub get_member-owner_rows :
    (env : Env) (tenant identity : Uuid) (db : Db)
    → owner_rows (get_member env tenant identity db).1 ≡ owner_rows db
unfolding get_member in_tenant_tx transaction atomic rolled_back sent ◌>>=◌ ◌>>◌ go_on stop_if query
    must write done owner_rows
get_member-owner_rows env tenant identity db = ground arith

pub get_session-owner_rows :
    (env : Env) (tenant : Uuid) (hash : Option String) (db : Db)
    → owner_rows (get_session env tenant hash db).1 ≡ owner_rows db
unfolding get_session in_tenant_tx transaction atomic rolled_back sent ◌>>=◌ ◌>>◌ go_on stop_if
    query must write done owner_rows
get_session-owner_rows env tenant hash db = ground arith

pub has_active_membership-owner_rows :
    (env : Env) (tenant identity : Uuid) (db : Db)
    → owner_rows (has_active_membership env tenant identity db).1 ≡ owner_rows db
unfolding has_active_membership in_tenant_tx transaction atomic rolled_back sent ◌>>=◌ ◌>>◌ go_on
    stop_if query must write done owner_rows
has_active_membership-owner_rows env tenant identity db = ground arith

pub barber_eligible-owner_rows :
    (env : Env) (tenant identity : Uuid) (db : Db)
    → owner_rows (barber_eligible env tenant identity db).1 ≡ owner_rows db
unfolding barber_eligible in_tenant_tx transaction atomic rolled_back sent ◌>>=◌ ◌>>◌ go_on stop_if
    query must write done owner_rows
barber_eligible-owner_rows env tenant identity db = ground arith

pub list_members-owner_rows :
    (env : Env) (by_name : Member → Member → Bool) (tenant : Uuid) (db : Db)
    → owner_rows (list_members env by_name tenant db).1 ≡ owner_rows db
unfolding list_members in_tenant_tx transaction atomic rolled_back sent ◌>>=◌ ◌>>◌ go_on stop_if
    query must write done owner_rows
list_members-owner_rows env by_name tenant db = ground arith

pub list_owners-owner_rows :
    (env : Env) (by_email : OwnerState → OwnerState → Bool) (tenant : Uuid) (db : Db)
    → owner_rows (list_owners env by_email tenant db).1 ≡ owner_rows db
unfolding list_owners in_tenant_tx transaction atomic rolled_back sent ◌>>=◌ ◌>>◌ go_on stop_if
    query must write done owner_rows
list_owners-owner_rows env by_email tenant db = ground arith

reset_active-owner_rows :
    (env : Env) (identity : Uuid) (hash : String) (active : Bool) (db : Db)
    → owner_rows (reset_active env identity hash active db).1 ≡ owner_rows db
unfolding reset_active replace_password in_tenant_tx transaction atomic rolled_back sent ◌>>=◌ ◌>>◌
    go_on stop_if query must write done owner_rows
reset_active-owner_rows env identity hash false db = refl
reset_active-owner_rows env identity hash true db = ground arith

pub reset_password-owner_rows :
    (env : Env) (tenant identity : Uuid) (hash : String) (db : Db)
    → owner_rows (reset_password env tenant identity hash db).1 ≡ owner_rows db
unfolding reset_password in_tenant_tx transaction atomic rolled_back sent ◌>>=◌ ◌>>◌ go_on stop_if
    query must write done owner_rows
reset_password-owner_rows env tenant identity hash db = ground (
  arith,
  reset_active-owner_rows env identity hash (any (is_active_member tenant identity) db.memberships)
      db,
)

ensure_identity-owner_rows :
    (env : Env) (i : IdentityRow) (email hash : String) (clash : Bool) (db : Db)
    → owner_rows (ensure_identity env i email hash clash db).1 ≡ owner_rows db
unfolding ensure_identity in_tenant_tx transaction atomic rolled_back sent ◌>>=◌ ◌>>◌ go_on stop_if
    query must write done owner_rows
ensure_identity-owner_rows env i email hash true db = ground arith
ensure_identity-owner_rows env i email hash false db = ground arith

ensure_membership-owner_rows :
    (m : MembershipRow) (there : Bool) (db : Db)
    → is_owner m ≡ false
    → owner_rows (ensure_membership m there db).1 ≡ owner_rows db
unfolding ensure_membership in_tenant_tx transaction atomic rolled_back sent ◌>>=◌ ◌>>◌ go_on
    stop_if query must write done owner_rows select
ensure_membership-owner_rows m true db h = refl
ensure_membership-owner_rows m false db h = ground arith

register_membership-owner_rows :
    (env : Env) (tenant : Uuid) (role : String) (identity : Uuid × Bool) (db : Db)
    → str_eq role "OWNER" ≡ false
    → owner_rows (register_membership env tenant role identity db).1 ≡ owner_rows db
unfolding register_membership new_membership sent ◌>>=◌ ◌>>◌ go_on stop_if query must write done
register_membership-owner_rows env tenant role identity db h = ground (
  arith,
  ensure_membership-owner_rows (new_membership env tenant identity.0 role)
      (any (is_member tenant identity.0) db.memberships) db h,
)

register_body-owner_rows :
    (env : Env) (tenant : Uuid) (name email phone role hash : String) (db : Db)
    → str_eq role "OWNER" ≡ false
    → owner_rows (register_body env tenant name email phone role hash db).1 ≡ owner_rows db
unfolding register_body sent query go_on ◌>>=◌ new_identity
register_body-owner_rows env tenant name email phone role hash db h =
    let i = new_identity env name email phone in
    guard-Leaves (λ s. owner_rows s ≡ owner_rows db) (env.fails insert_identity) failed _ db refl
      (λ e.
        guard-Leaves (λ s. owner_rows s ≡ owner_rows db) (not (identity_checks i)) failed _ db refl
          (λ e'.
            let clash = any (clashes_with env.lower i) db.identities in
            let kept = ensure_identity-owner_rows env i email hash clash db in
            bind-Leaves (λ s. owner_rows s ≡ owner_rows db) (ensure_identity env i email hash clash)
              (register_membership env tenant role) db kept
              (λ identity g. register_membership-owner_rows env tenant role identity _ h ∙ kept)))

pub register-owner_rows :
    (env : Env) (tenant : Uuid) (name email phone role hash : String) (db : Db)
    → str_eq role "OWNER" ≡ false
    → owner_rows (register env tenant name email phone role hash db).1 ≡ owner_rows db
unfolding register in_tenant_tx
register-owner_rows env tenant name email phone role hash db h =
    transaction-Leaves (λ s. owner_rows s ≡ owner_rows db) (env.fails begin_tx)
      (env.fails commit_tx) failed (register_body env tenant name email phone role hash) db refl
      (register_body-owner_rows env tenant name email phone role hash db h)
