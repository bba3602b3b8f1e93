-- ===== src/Auth/Service/Staff.antt =====
-- services/auth-service/internal/service/service.go: the members of a tenant's staff.
pub mod Managing
use shearix_platform.Shared.{
  String, Bool, true, false, ◌&&◌, ◌||◌, not, Option, none, some, List, str_append, str_eq, codes,
  length, ltb, ◌==◌, Result, ok, err, if◌then◌else◌,
}
use shearix_platform.Shared.Actions.{Action, ◌>>=◌, ◌>>◌, done, fail, stop_if, must}
use shearix_platform.Platform.Ids.{Uuid}
use shearix_platform.Platform.Library.{Library}
use shearix_platform.Platform.Email.{Message, Delivery}
use shearix_platform.Auth.Domain.{
  StaffPrincipal, RegisterInput, Member, OwnerState, StaffRegistration,
}
use shearix_platform.Auth.Store.{Db, Env, RepoError, not_found, no_rows, failed}
use shearix_platform.Auth.Repository.{Credential, RegistrationResult, credential_by_email, register}
use shearix_platform.Auth.Repository.Deliveries.{
  claim_initial_delivery, mark_initial_delivery, activate_retried_credential,
}
use shearix_platform.Auth.Repository.Members.{
  get_member, change_member_role, set_member_status, barber_eligible,
}
use shearix_platform.Auth.Repository.Sessions.Lists.{list_members, list_owners}
use shearix_platform.Auth.Service.{
  AuthError, forbidden, invalid_input, delivery_unavailable, delivery_in_progress, repository,
  World, Setting, on_db, stored, normalize_email, new_password, hashed, send,
}

-- staffRole
unfoldable pub staff_role : String → Bool
staff_role r = str_eq r "MANAGER" || str_eq r "BARBER" || str_eq r "RECEPTIONIST"

-- An owner of the tenant.
unfoldable pub is_owner_of : Uuid → StaffPrincipal → Bool
is_owner_of tenant actor = actor.tenant_id == tenant && str_eq actor.role "OWNER"

-- validateRegistration: the name and the email.
unfoldable pub validate_registration : Library → RegisterInput → Option (String × String)
unfolding normalize_email staff_role
validate_registration lib input =
    let name = lib.trim_space input.name in
    if str_eq name "" || ltb 200 (length (codes name))
    then none
    else elim (normalize_email lib input.email) [
      | none ↦ none
      | some email ↦ if staff_role input.role then some (name, email) else none
    ]

-- initialPasswordMessage
unfoldable pub initial_password_message : Library → String → String → Uuid → Message
initial_password_message lib email password identity = record {
  to = email;
  subject = "Your initial password";
  text =
      str_append "Your initial password is: "
        (str_append password "\nYou must change it after signing in.");
  template = "user_initial_password";
  idempotency_key = lib.uuid_text identity;
}

unfoldable pub registration : RegistrationResult → Bool → StaffRegistration
registration r scheduled = record {
  identity_id = r.identity_id;
  membership_created = r.created_membership;
  credential_scheduled = scheduled;
  role = r.role;
}

-- What follows an undelivered message: the error of MarkInitialDelivery is dropped.
unfoldable pub mark_failed : Env → Uuid → Uuid → Action AuthError World StaffRegistration
unfolding on_db
mark_failed env identity claim w =
    let (r, w') =
      on_db (mark_initial_delivery env identity claim "failed" "email provider unavailable") w in
    (err delivery_unavailable, w')

-- The end of a delivery: of a retried one, whose new password is stored only now, and of a first one.
unfoldable pub settle :
    Env
    → Uuid
    → Uuid
    → Action RepoError Db (Unit {0})
    → RegistrationResult
    → Bool
    → Action AuthError World StaffRegistration
unfolding ◌>>◌ done stored mark_failed registration
settle env identity claim finish r false = mark_failed env identity claim
settle env identity claim finish r true = do stored finish; done (registration r true)

-- Register, for an identity with a credential.
unfoldable pub redeliver :
    Env
    → Setting
    → Delivery
    → String
    → RegistrationResult
    → Action AuthError World StaffRegistration
unfolding ◌>>=◌ ◌>>◌ stop_if stored new_password hashed send initial_password_message settle
redeliver env set d email r = do
  claim ← stored (claim_initial_delivery env r.identity_id)
  stop_if (not claim.1) delivery_in_progress
  password ← new_password set
  hash ← hashed set password
  accepted ← send d (initial_password_message set.lib email password r.identity_id)
  settle env r.identity_id claim.0 (activate_retried_credential env r.identity_id claim.0 hash) r
      accepted

-- The identity had its password already.
unfoldable pub finish_existing :
    Env
    → Setting
    → Delivery
    → String
    → RegistrationResult
    → Bool
    → Action AuthError World StaffRegistration
unfolding done registration redeliver
finish_existing env set d email r true = done (registration r false)
finish_existing env set d email r false = redeliver env set d email r

unfoldable pub register_existing :
    Env
    → Setting
    → Delivery
    → Uuid
    → String
    → String
    → RegisterInput
    → Credential
    → Action AuthError World StaffRegistration
unfolding ◌>>=◌ stored finish_existing
register_existing env set d tenant name email input existing = do
  r ← stored (register env tenant name email input.phone input.role "")
  finish_existing env set d email r (str_eq existing.delivery_status "sent")

-- Register, for an identity that it creates.
unfoldable pub deliver_first :
    Env
    → Setting
    → Delivery
    → String
    → String
    → RegistrationResult
    → Action AuthError World StaffRegistration
unfolding ◌>>=◌ ◌>>◌ stop_if stored send initial_password_message settle
deliver_first env set d email password r = do
  claim ← stored (claim_initial_delivery env r.identity_id)
  stop_if (not claim.1) delivery_in_progress
  accepted ← send d (initial_password_message set.lib email password r.identity_id)
  settle env r.identity_id claim.0 (mark_initial_delivery env r.identity_id claim.0 "sent" "") r
      accepted

-- Another request may have created the identity in the meantime.
unfoldable pub finish_new :
    Env
    → Setting
    → Delivery
    → String
    → String
    → RegistrationResult
    → Bool
    → Action AuthError World StaffRegistration
unfolding done registration deliver_first
finish_new env set d email password r false = done (registration r false)
finish_new env set d email password r true = deliver_first env set d email password r

unfoldable pub register_new :
    Env
    → Setting
    → Delivery
    → Uuid
    → String
    → String
    → RegisterInput
    → Action AuthError World StaffRegistration
unfolding ◌>>=◌ stored new_password hashed finish_new
register_new env set d tenant name email input = do
  password ← new_password set
  hash ← hashed set password
  r ← stored (register env tenant name email input.phone input.role hash)
  finish_new env set d email password r r.created_identity

unfoldable pub register_found :
    Env
    → Setting
    → Delivery
    → Uuid
    → String
    → String
    → RegisterInput
    → Result RepoError Credential
    → Action AuthError World StaffRegistration
unfolding fail register_existing register_new
register_found env set d tenant name email input (ok existing) =
    register_existing env set d tenant name email input existing
register_found env set d tenant name email input (err not_found) =
    register_new env set d tenant name email input
register_found env set d tenant name email input (err no_rows) = fail (repository no_rows)
register_found env set d tenant name email input (err failed) = fail (repository failed)

unfoldable pub register_by_email :
    Env
    → Setting
    → Delivery
    → Uuid
    → RegisterInput
    → String × String
    → Action AuthError World StaffRegistration
unfolding on_db register_found
register_by_email env set d tenant input (name, email) w =
    let (r, w') = on_db (credential_by_email env email) w in
    register_found env set d tenant name email input r w'

-- Register
unfoldable pub register_staff :
    Env → Setting → Uuid → StaffPrincipal → RegisterInput → Action AuthError World StaffRegistration
unfolding ◌>>=◌ ◌>>◌ stop_if must is_owner_of validate_registration register_by_email
register_staff env set tenant actor input = do
  stop_if (not (is_owner_of tenant actor)) forbidden
  names ← must invalid_input (validate_registration set.lib input)
  d ← must delivery_unavailable set.sender
  register_by_email env set d tenant input names
