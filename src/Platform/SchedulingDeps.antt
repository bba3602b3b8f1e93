-- ===== src/Platform/SchedulingDeps.antt =====
-- platform/schedulingdeps/client.go: what the services read from one another.
use shearix_platform.Shared.{String, Option, ℤ}
use shearix_platform.Platform.Ids.{Uuid}

pub record Service : Type 0 where
  pub duration_minutes : ℤ
  pub buffer_before_minutes : ℤ
  pub buffer_after_minutes : ℤ

pub record Barber : Type 0 where
  pub identity_id : Option Uuid

pub record TenantSettings : Type 0 where
  pub timezone : String
  pub booking_interval_minutes : ℤ
  pub cancellation_policy : String
  pub cancellation_notice_minutes : ℤ

-- A private request of another service that failed; `missing` is its ErrNotFound.
pub data DependencyError : Type 0 where
  missing unreachable : DependencyError
