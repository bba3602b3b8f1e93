-- ===== src/Appointment/Application.antt =====
-- services/appointment-service/internal/application/application.go: what the three services of the
-- application share.
pub mod Booking
pub mod Changes
pub mod Reads
pub mod Retry
pub mod Cancelling
pub mod Access
use shearix_platform.Shared.{
  ℕ, String, Bool, true, false, ◌&&◌, ◌||◌, not, Option, none, some, List, [], ◌∷◌, ◌==◌, leb, ltb,
  all, codes, byte_length, str_append, str_eq, Result, ok, err, mapped, refuse_if, if◌then◌else◌,
}
use shearix_platform.GoTime.{Time, is_zero}
use shearix_platform.Platform.Ids.{Uuid, is_nil}
use shearix_platform.Platform.Library.{Library}
use shearix_platform.Platform.TenantContext.{Context}
use shearix_platform.Platform.SchedulingDeps.{Service, TenantSettings, DependencyError}
use shearix_platform.Appointment.Domain.{CreateInput, Appointment}
use shearix_platform.Appointment.Store.{
  Db, RepoError, not_found, idempotency_conflict, invalid_transition, sql_conflict, no_rows,
  database,
}
use shearix_platform.Appointment.Store.Constraints.{is_key_char}

-- The errors of the application; `other` is an error of the repository that is passed on.
pub data AppError : Type 0 where
  invalid invalid_idempotency_key unauthorized forbidden missing conflict : AppError
  key_conflict unavailable : AppError
  other : RepoError → AppError

pub record Principal : Type 0 where
  pub kind : String
  pub identity_id : Uuid
  pub customer_id : Option Uuid
  pub role : String

pub record CustomerSnapshot : Type 0 where
  pub name : String
  pub email : String

-- What the other services answer to one command.
pub record Dependencies : Type 0 where
  pub branch_barber : Context → Uuid → Uuid → Result DependencyError (Unit {0})
  pub barber : Context → Uuid → Result DependencyError (Unit {0})
  pub service : Context → Uuid → Uuid → Result DependencyError Service
  pub settings : Context → Result DependencyError TenantSettings
  pub available : Context → CreateInput → Time → Result DependencyError (Unit {0})
  pub customer : Context → Uuid → Result DependencyError CustomerSnapshot

pub record CreateCommand : Type 0 where
  pub tenant : Context
  pub principal : Principal
  pub operation : String
  pub idempotency_key : String
  pub input : CreateInput

-- ValidIdempotencyKey
unfoldable pub valid_idempotency_key : String → Bool
valid_idempotency_key key =
    leb 1 (byte_length key) && leb (byte_length key) 128 && all is_key_char (codes key)

-- canManage
unfoldable pub can_manage : String → Bool
can_manage role = str_eq role "OWNER" || str_eq role "MANAGER" || str_eq role "RECEPTIONIST"

-- canRead
unfoldable pub can_read_bookings : String → Bool
unfolding can_manage
can_read_bookings role = can_manage role || str_eq role "BARBER"

unfoldable pub customer_scope : Library → Option Uuid → Result AppError String
customer_scope lib none = err unauthorized
customer_scope lib (some c) =
    if is_nil c then err unauthorized else ok (str_append "customer:" (lib.uuid_text c))

-- principalScope
unfoldable pub principal_scope : Library → Principal → String → Result AppError String
unfolding customer_scope can_manage
principal_scope lib p email =
    if str_eq p.kind "customer"
    then customer_scope lib p.customer_id
    else if str_eq p.kind "admin"
    then (if is_nil p.identity_id || not (can_manage p.role)
        then err forbidden
        else ok (str_append "admin:" (lib.uuid_text p.identity_id)))
    else if str_eq p.kind "guest"
    then ok (str_append "guest:" (lib.sha256_hex email))
    else err unauthorized

-- A text that mail.ParseAddress gives back as it is.
unfoldable pub is_plain_address : Library → String → Bool
is_plain_address lib contact = elim (lib.parse_address contact) [
  | none ↦ false
  | some address ↦ str_eq address contact
]

unfoldable pub trimmed : Library → CreateInput → CreateInput
trimmed lib input = record input {
  customer_name = lib.trim_space input.customer_name;
  customer_contact = lib.to_lower (lib.trim_space input.customer_contact);
}

-- The test of normalizeCreate.
unfoldable pub is_bookable_input : Library → CreateInput → Bool
unfolding is_plain_address
is_bookable_input lib input =
    is_plain_address lib input.customer_contact
    && leb (byte_length input.customer_contact) 320
    && not (str_eq input.customer_name "")
    && not (is_nil input.branch_id)
    && not (is_nil input.barber_id)
    && not (is_nil input.service_id)
    && not (is_zero input.start_at)

-- normalizeCreate
unfoldable pub normalize_create : Library → CreateInput → Result AppError CreateInput
unfolding trimmed is_bookable_input
normalize_create lib input =
    let clean = trimmed lib input in if is_bookable_input lib clean then ok clean else err invalid

-- fingerprint
unfoldable pub fingerprint : Library → Uuid → String → String → CreateInput → String
fingerprint lib tenant scope operation input = lib.sha256_hex (
    lib.marshal_texts (
      lib.uuid_text tenant
      ∷ scope
      ∷ operation
      ∷ lib.uuid_text input.branch_id
      ∷ lib.uuid_text input.barber_id
      ∷ lib.uuid_text input.service_id
      ∷ lib.trim_space input.customer_name
      ∷ input.customer_contact
      ∷ lib.rfc3339_nano input.start_at
      ∷ []))

-- mapRepositoryError, for an error
unfoldable pub map_repository_error : RepoError → AppError
map_repository_error not_found = missing
map_repository_error idempotency_conflict = key_conflict
map_repository_error invalid_transition = conflict
map_repository_error sql_conflict = conflict
map_repository_error no_rows = other no_rows
map_repository_error database = other database

-- What a call of the repository answers, in the application's errors, and the tables it leaves.
abbrev pub answered : {A : Type 0} → Result RepoError A × Db → Result AppError A × Db
answered r = (mapped map_repository_error r.0, r.1)
