-- ===== src/Scheduling/Domain.antt =====
-- services/scheduling-service/internal/domain/domain.go
use shearix_platform.Shared.{ℕ, String, List, ℤ}
use shearix_platform.Platform.Ids.{Uuid}
use shearix_platform.GoTime.{Time}

-- A wall-clock time such as "09:30", as the bytes of its text.
pub record Interval : Type 0 where
  pub start : List ℕ
  pub end : List ℕ

pub record DayHours : Type 0 where
  pub weekday : ℤ
  pub intervals : List Interval

abbrev pub WorkingHoursInput : Type 0
WorkingHoursInput = List DayHours

pub record OverrideInput : Type 0 where
  pub date : String
  pub kind : String
  pub intervals : List Interval

pub record Override : Type 0 where
  pub id : Uuid
  pub date : String
  pub kind : String
  pub intervals : List Interval

pub record BlockedPeriodInput : Type 0 where
  pub start_at : Time
  pub end_at : Time

pub record BlockedPeriod : Type 0 where
  pub id : Uuid
  pub start_at : Time
  pub end_at : Time

pub record Schedule : Type 0 where
  pub working_hours : WorkingHoursInput
  pub overrides : List Override
  pub blocked_periods : List BlockedPeriod

pub record Slot : Type 0 where
  pub start_at : Time
  pub end_at : Time
