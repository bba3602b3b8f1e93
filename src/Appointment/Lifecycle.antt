-- ===== src/Appointment/Lifecycle.antt =====
-- services/appointment-service/internal/repository/repository.go, lines 192-251: the changes of a
-- booking, Transition and Reschedule.
pub mod Edges
pub mod Outcome
pub mod States
pub mod Refined
use Prim.Native.String.{◌++◌ as str_append}
use shearix_platform.Shared.{
  String, Bool, true, false, ◌&&◌, ◌||◌, not, List, [], ◌∷◌, map, ◌==◌, Result, ok, err, any,
  if◌then◌else◌,
}
use shearix_platform.GoTime.{Time}
use shearix_platform.Platform.Ids.{Uuid}
use shearix_platform.Appointment.Domain.{Appointment}
use shearix_platform.Appointment.Store.{
  Row, Db, RepoError, not_found, invalid_transition, sql_conflict, database, Env, select_status,
  update_status, update_times, Tx, ◌>>=◌, ◌>>◌, pure, send, raise_if, read, expect, with_tenant_tx,
}
use shearix_platform.Appointment.Store.Constraints.{row_checks, excludes, is_row}
use shearix_platform.Appointment.Repository.{scan, find_row, append_event}
use text.Mathlib.Text.{◌==◌ as str_eq}

-- transitions[from][to]; a state or an event that the map does not name gives false.
unfoldable pub transitions : String → String → Bool
transitions from to =
    if str_eq from "pending"
    then str_eq to "confirmed" || str_eq to "cancelled"
    else if str_eq from "confirmed"
    then str_eq to "cancelled" || str_eq to "completed" || str_eq to "no_show"
    else false

-- The table with the row of the same tenant and id replaced.
unfoldable pub replace : Row → List Row → List Row
replace row [] = []
replace row (r ∷ rest) = if is_row row.tenant_id row.id r then row ∷ rest else r ∷ replace row rest

-- UPDATE public.appointments ... WHERE tenant_id=$1 AND id=$2, with the constraints that the new
-- row meets.
unfoldable pub update_row : Row → Tx (Unit {0})
unfolding replace
update_row row db =
    if not (row_checks row)
    then err database
    else if any (λ r. not (is_row row.tenant_id row.id r) && excludes row r) db.appointments
    then err sql_conflict
    else ok (tt, record db { appointments = replace row db.appointments })

-- titles[to]; a key that is not there gives the empty text.
unfoldable pub title : String → String
title to =
    if str_eq to "confirmed"
    then "AppointmentConfirmed"
    else if str_eq to "cancelled"
    then "AppointmentCancelled"
    else if str_eq to "completed"
    then "AppointmentCompleted"
    else if str_eq to "no_show"
    then "AppointmentNoShow"
    else ""

unfoldable pub transition_body : Env → Uuid → Uuid → String → Tx Appointment
unfolding transitions update_row title append_event
transition_body env tenant id to = do
  send env select_status
  found ← read (λ db. find_row tenant id db.appointments)
  old ← expect not_found found
  raise_if (not (transitions old.status to)) invalid_transition
  send env update_status
  update_row (record old { status = to })
  append_event env tenant (scan (record old { status = to })) (title to)
      (str_append "appointment." to)
  pure (scan (record old { status = to }))

-- Transition
unfoldable pub transition : Env → Uuid → Uuid → String → Db → Result RepoError Appointment × Db
unfolding with_tenant_tx transition_body
transition env tenant id to = with_tenant_tx env (transition_body env tenant id to)

-- The row of a booking at its new times, as the table keeps them.
abbrev pub moved : Env → Row → Time → Time → Time → Time → Row
moved env old start_at end_at occupied_start_at occupied_end_at = record old {
  start_at = env.kept_time start_at;
  end_at = env.kept_time end_at;
  occupied_start_at = env.kept_time occupied_start_at;
  occupied_end_at = env.kept_time occupied_end_at;
}

unfoldable pub reschedule_body : Env → Uuid → Uuid → Time → Time → Time → Time → Tx Appointment
unfolding update_row append_event
reschedule_body env tenant id start_at end_at occupied_start_at occupied_end_at = do
  send env select_status
  found ← read (λ db. find_row tenant id db.appointments)
  old ← expect not_found found
  raise_if (not (str_eq old.status "pending") && not (str_eq old.status "confirmed"))
      invalid_transition
  send env update_times
  let row = moved env old start_at end_at occupied_start_at occupied_end_at
  update_row row
  append_event env tenant (scan row) "AppointmentRescheduled" "appointment.rescheduled"
  pure (scan row)

-- Reschedule
unfoldable pub reschedule :
    Env → Uuid → Uuid → Time → Time → Time → Time → Db → Result RepoError Appointment × Db
unfolding with_tenant_tx reschedule_body
reschedule env tenant id start_at end_at occupied_start_at occupied_end_at =
    with_tenant_tx env
      (reschedule_body env tenant id start_at end_at occupied_start_at occupied_end_at)
