-- ===== src/Appointment/Application/Changes.antt =====
-- services/appointment-service/internal/application/application.go, lines 182-242: LifecycleService.
use shearix_platform.Shared.{
  String, Bool, ◌&&◌, ◌||◌, not, none, Result, ok, err, ◌>>=◌, ◌>>◌, refuse_if, or_error, str_eq,
}
use shearix_platform.GoTime.{Time, add, before, minutes, minus_minutes}
use shearix_platform.Platform.Ids.{Uuid}
use shearix_platform.Platform.TenantContext.{Context}
use shearix_platform.Platform.SchedulingDeps.{Service, TenantSettings}
use shearix_platform.Appointment.Domain.{CreateInput, Appointment}
use shearix_platform.Appointment.Store.{Db, RepoError, Env}
use shearix_platform.Appointment.Lifecycle.{transition, reschedule}
use shearix_platform.Appointment.Queries.{get, get_for_customer}
use shearix_platform.Appointment.Application.{
  AppError, invalid, forbidden, conflict, unavailable, Principal, Dependencies, can_manage,
  map_repository_error, answered,
}

-- Who may ask for a transition.
unfoldable pub may_change : Principal → String → Bool
may_change p to =
    str_eq p.kind "admin" && can_manage p.role || str_eq p.kind "guest" && str_eq to "cancelled"

unfoldable pub is_target : String → Bool
is_target to =
    str_eq to "cancelled" || str_eq to "confirmed" || str_eq to "completed" || str_eq to "no_show"

unfoldable pub change_allowed :
    Env → Uuid → Uuid → String → Result AppError (Unit {0}) → Db → Result AppError Appointment × Db
change_allowed env tenant id to (err e) db = (err e, db)
change_allowed env tenant id to (ok _) db = answered (transition env tenant id to db)

-- Transition
unfoldable pub change_status :
    Env → Uuid → Principal → Uuid → String → Db → Result AppError Appointment × Db
unfolding may_change is_target change_allowed
change_status env tenant p id to db =
    change_allowed env tenant id to
      (do refuse_if (not (may_change p to)) forbidden; refuse_if (not (is_target to)) invalid) db

-- The test of the tenant's cancellation policy.
unfoldable pub is_too_late : TenantSettings → Time → Time → Bool
is_too_late settings start now =
    str_eq settings.cancellation_policy "no_cancellation"
    || not (before now (add start (minus_minutes settings.cancellation_notice_minutes)))

-- The questions before a customer's cancellation.
unfoldable pub may_cancel : Dependencies → Context → Time → Appointment → Result AppError (Unit {0})
unfolding is_too_late
may_cancel deps tenant now a = do
  settings ← or_error unavailable (deps.settings tenant)
  refuse_if (is_too_late settings a.start_at now) conflict

unfoldable pub cancel_allowed :
    Env → Context → Uuid → Result AppError (Unit {0}) → Db → Result AppError Appointment × Db
cancel_allowed env tenant id (err e) db = (err e, db)
cancel_allowed env tenant id (ok _) db =
    answered (transition env tenant.tenant_id id "cancelled" db)

unfoldable pub cancel_found :
    Dependencies
    → Env
    → Context
    → Uuid
    → Time
    → Result RepoError Appointment
    → Db
    → Result AppError Appointment × Db
unfolding may_cancel cancel_allowed
cancel_found deps env tenant id now (err e) db = (err (map_repository_error e), db)
cancel_found deps env tenant id now (ok a) db =
    cancel_allowed env tenant id (may_cancel deps tenant now a) db

-- CancelCustomer; `env` is what the first transaction meets, `env'` the second, and `meanwhile`
-- what other requests do between them.
unfoldable pub cancel_customer :
    Dependencies
    → Env
    → Env
    → (Db → Db)
    → Context
    → Uuid
    → Uuid
    → Time
    → Db
    → Result AppError Appointment × Db
unfolding cancel_found
cancel_customer deps env env' meanwhile tenant customer id now db =
    let (found, db') = get_for_customer env tenant.tenant_id customer id db in
    cancel_found deps env' tenant id now found (meanwhile db')

-- The input of a booking that exists, at another time.
unfoldable pub input_of : Appointment → Time → CreateInput
input_of old start = record {
  branch_id = old.branch_id;
  barber_id = old.barber_id;
  service_id = old.service_id;
  customer_name = old.customer_name;
  customer_contact = old.customer_contact;
  start_at = start;
  customer_id = none;
}

unfoldable pub validate_move : Dependencies → Context → CreateInput → Time → Result AppError Service
validate_move deps tenant input start = do
  or_error conflict (deps.branch_barber tenant input.branch_id input.barber_id)
  or_error conflict (deps.barber tenant input.barber_id)
  service ← or_error conflict (deps.service tenant input.barber_id input.service_id)
  or_error conflict (deps.available tenant input start)
  ok service

unfoldable pub move_found :
    Dependencies
    → Env
    → Context
    → Uuid
    → Time
    → Result RepoError Appointment
    → Db
    → Result AppError Appointment × Db
unfolding input_of validate_move
move_found deps env tenant id start (err e) db = (err (map_repository_error e), db)
move_found deps env tenant id start (ok old) db =
    elim (validate_move deps tenant (input_of old start) start) [
      | err e ↦ (err e, db)
      | ok service ↦ answered (
          reschedule env tenant.tenant_id id start (add start (minutes service.duration_minutes))
            (add start (minus_minutes service.buffer_before_minutes))
            (add (add start (minutes service.duration_minutes))
              (minutes service.buffer_after_minutes))
            db)
    ]

-- Reschedule
unfoldable pub move_booking :
    Dependencies
    → Env
    → Env
    → (Db → Db)
    → Context
    → Principal
    → Uuid
    → Time
    → Db
    → Result AppError Appointment × Db
unfolding move_found
move_booking deps env env' meanwhile tenant p id start db =
    elim (refuse_if (not (str_eq p.kind "admin") || not (can_manage p.role)) forbidden) [
      | err e ↦ (err e, db)
      | ok _ ↦
          let (found, db') = get env tenant.tenant_id id db in
          move_found deps env' tenant id start found (meanwhile db')
    ]
