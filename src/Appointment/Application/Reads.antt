-- ===== src/Appointment/Application/Reads.antt =====
-- services/appointment-service/internal/application/application.go, lines 244-319: QueryService.
use shearix_platform.Shared.{
  String, Bool, false, ◌&&◌, ◌||◌, not, none, some, List, map, Result, ok, ◌>>=◌, ◌>>◌, refuse_if,
  or_error, mapped, str_eq, if◌then◌else◌,
}
use shearix_platform.GoTime.{Time, add, before, minus_minutes}
use shearix_platform.Platform.Ids.{Uuid}
use shearix_platform.Platform.Library.{Library}
use shearix_platform.Platform.TenantContext.{Context}
use shearix_platform.Platform.SchedulingDeps.{TenantSettings}
use shearix_platform.Appointment.Domain.{Appointment}
use shearix_platform.Appointment.Store.{Db, RepoError, Env}
use shearix_platform.Appointment.Queries.{get, list, get_for_customer, list_for_customer, occupancy}
use shearix_platform.Appointment.Application.{
  AppError, invalid, forbidden, unavailable, Principal, Dependencies, can_read_bookings,
  is_plain_address, map_repository_error,
}

-- A transaction that only reads: what it answers, in the application's errors.
abbrev pub looked_up : {A : Type 0} → Result RepoError A × Db → Result AppError A
looked_up r = mapped map_repository_error r.0

-- The test of GetAdmin and List.
unfoldable pub may_read : Principal → Result AppError (Unit {0})
may_read p = refuse_if (not (str_eq p.kind "admin") || not (can_read_bookings p.role)) forbidden

-- Get
unfoldable pub get_booking : Env → Uuid → Uuid → Db → Result AppError Appointment
get_booking env tenant id db = looked_up (get env tenant id db)

-- GetAdmin
unfoldable pub get_admin : Env → Uuid → Uuid → Principal → Db → Result AppError Appointment
unfolding may_read get_booking
get_admin env tenant id p db = do may_read p; get_booking env tenant id db

-- NotificationRecipient
unfoldable pub notification_recipient : Library → Env → Uuid → Uuid → Db → Result AppError String
unfolding get_booking
notification_recipient lib env tenant id db = do
  a ← get_booking env tenant id db
  let recipient = lib.to_lower (lib.trim_space a.customer_contact)
  refuse_if (not (is_plain_address lib recipient)) invalid
  ok recipient

-- List
unfoldable pub list_bookings : Env → Uuid → Principal → Db → Result AppError (List Appointment)
unfolding may_read
list_bookings env tenant p db = do may_read p; looked_up (list env tenant db)

-- CustomerGet
unfoldable pub customer_get : Env → Uuid → Uuid → Uuid → Db → Result AppError Appointment
customer_get env tenant customer id db = looked_up (get_for_customer env tenant customer id db)

-- cancellationState
unfoldable pub cancellation_state : TenantSettings → Time → Appointment → Appointment
cancellation_state settings now a =
    let deadline = add a.start_at (minus_minutes settings.cancellation_notice_minutes) in
    if str_eq settings.cancellation_policy "no_cancellation"
    then record a { can_cancel = false; cancellation_deadline = none }
    else record a {
      cancellation_deadline = some deadline;
      can_cancel =
          not (str_eq a.status "cancelled")
          && not (str_eq a.status "completed")
          && not (str_eq a.status "no_show")
          && before now deadline;
    }

-- CustomerList
unfoldable pub customer_list :
    Dependencies → Env → Context → Uuid → Bool → Time → Db → Result AppError (List Appointment)
unfolding cancellation_state
customer_list deps env tenant customer upcoming now db = do
  found ← looked_up (list_for_customer env tenant.tenant_id customer upcoming db)
  if upcoming
      then (do
        settings ← or_error unavailable (deps.settings tenant)
        ok (map (cancellation_state settings now) found))
      else ok found

-- Occupancy
unfoldable pub occupied_by :
    Env → Uuid → Uuid → Time → Time → Db → Result AppError (List Appointment)
occupied_by env tenant barber from to db = do
  refuse_if (not (before from to)) invalid
  looked_up (occupancy env tenant barber from to db)
