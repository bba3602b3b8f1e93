-- ===== src/Auth/Domain.antt =====
-- services/auth-service/internal/domain/auth.go. A role is its text.
use shearix_platform.Shared.{String, Bool, ◌||◌, str_eq}
use shearix_platform.GoTime.{Time}
use shearix_platform.Platform.Ids.{Uuid}

-- Role.Valid
unfoldable pub valid_role : String → Bool
valid_role r =
    str_eq r "OWNER" || str_eq r "MANAGER" || str_eq r "BARBER" || str_eq r "RECEPTIONIST"

pub record StaffPrincipal : Type 0 where
  pub identity_id : Uuid
  pub name : String
  pub email : String
  pub phone : String
  pub must_change_password : Bool
  pub role : String
  pub tenant_id : Uuid
  pub session_id : Uuid

pub record LoginInput : Type 0 where
  pub email : String
  pub password : String

pub record RegisterInput : Type 0 where
  pub name : String
  pub email : String
  pub phone : String
  pub role : String

pub record Member : Type 0 where
  pub identity_id : Uuid
  pub name : String
  pub email : String
  pub phone : String
  pub role : String
  pub status : String
  pub created_at : Time

pub record OwnerState : Type 0 where
  pub identity_id : Uuid
  pub name : String
  pub email : String
  pub identity_status : String
  pub membership_status : String
  pub must_change_password : Bool
  pub delivery_status : String

pub record ChangePasswordInput : Type 0 where
  pub current_password : String
  pub new_password : String

pub record StaffRegistration : Type 0 where
  pub identity_id : Uuid
  pub membership_created : Bool
  pub credential_scheduled : Bool
  pub role : String

pub record StaffSession : Type 0 where
  pub principal : StaffPrincipal
  pub token : String
  pub expires_at : Time
