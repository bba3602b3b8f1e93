-- ===== src/Tenant/Domain.antt =====
-- services/tenant-service/internal/domain/domain.go
use shearix_platform.Shared.{String, Bool, Option, List, ℤ}
use shearix_platform.GoTime.{Time}
use shearix_platform.Platform.Ids.{Uuid}

pub record DomainResolution : Type 0 where
  pub tenant_id : Uuid
  pub app_type : String

-- A nil slice of offsets is `none`.
pub record Settings : Type 0 where
  pub tenant_id : Uuid
  pub business_timezone : String
  pub booking_interval_minutes : ℤ
  pub reminder_offsets_minutes : Option (List ℤ)
  pub cancellation_policy : String
  pub cancellation_notice_minutes : ℤ
  pub booking_horizon_days : ℤ
  pub minimum_booking_notice_minutes : ℤ

pub record UpdateSettingsInput : Type 0 where
  pub timezone : Option String
  pub booking_interval_minutes : Option ℤ
  pub reminder_offsets_minutes : Option (List ℤ)
  pub cancellation_policy : Option String
  pub booking_horizon_days : Option ℤ
  pub minimum_booking_notice_minutes : Option ℤ

pub record Tenant : Type 0 where
  pub id : Uuid
  pub name : String
  pub status : String
  pub created_at : Time
  pub settings : Settings

-- The metadata, a JSON object, is its text.
pub record PlatformAudit : Type 0 where
  pub id : Uuid
  pub actor : String
  pub action : String
  pub tenant_id : Option Uuid
  pub request_id : String
  pub metadata : String
  pub created_at : Time

pub record CreateTenantInput : Type 0 where
  pub name : String
  pub settings : Settings

pub record CreateDomainInput : Type 0 where
  pub hostname : String
  pub domain_type : String

pub record TenantDomain : Type 0 where
  pub id : Uuid
  pub tenant_id : Uuid
  pub hostname : String
  pub domain_type : String
  pub verified : Bool
  pub active : Bool
  pub verification_state : String
  pub verification_record : String
  pub verification_token : String
  pub verification_value : String
  pub verification_requested_at : Option Time
  pub last_verification_attempt_at : Option Time
  pub verified_at : Option Time
  pub activated_at : Option Time
  pub deactivated_at : Option Time
  pub created_at : Time
