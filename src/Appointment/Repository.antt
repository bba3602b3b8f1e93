-- ===== src/Appointment/Repository.antt =====
-- services/appointment-service/internal/repository/repository.go: the transactions on bookings.
pub mod Outcome
pub mod Idempotent
use mathlib.Core.Option
use Prim.Native.String.{◌++◌ as str_append}
use shearix_platform.Shared.{
  String, Bool, true, false, ◌&&◌, ◌||◌, not, Option, none, some, List, [], ◌∷◌, map, ◌==◌, Result,
  ok, err, any, first, select, if◌then◌else◌,
}
use shearix_platform.GoTime.{Time, before}
use shearix_platform.Platform.Ids.{Uuid}
use shearix_platform.Appointment.Domain.{CreateInput, Appointment, Payload}
use shearix_platform.Appointment.Store.{
  Row, KeyRow, EventRow, OutboxRow, Db, RepoError, not_found, idempotency_conflict,
  invalid_transition, sql_conflict, no_rows, database, Env, lock_key, find_key, load_appointment,
  insert_appointment, insert_key, insert_event, insert_outbox, select_status, update_status,
  update_times, Tx, ◌>>=◌, ◌>>◌, pure, raise, send, raise_if, read, expect, with_tenant_tx,
}
use shearix_platform.Appointment.Store.Constraints.{
  row_checks, excludes, is_active, ranges_meet, key_check, fingerprint_check, is_key_row, is_row,
}
use text.Mathlib.Text.{◌==◌ as str_eq}

-- The columns that a query returns, as an appointment.
abbrev pub scan : Row → Appointment
scan r = record {
  id = r.id;
  branch_id = r.branch_id;
  barber_id = r.barber_id;
  service_id = r.service_id;
  customer_name = r.customer_name;
  customer_contact = r.customer_contact;
  start_at = r.start_at;
  end_at = r.end_at;
  occupied_start_at = r.occupied_start_at;
  occupied_end_at = r.occupied_end_at;
  status = r.status;
  can_cancel = false;
  cancellation_deadline = none;
}

-- SELECT appointment_id,fingerprint FROM public.idempotency_keys WHERE ...
abbrev pub find_key_row : Uuid → String → String → String → List KeyRow → Option KeyRow
find_key_row tenant scope operation key keys = first (is_key_row tenant scope operation key) keys

-- SELECT ... FROM public.appointments WHERE tenant_id=$1 AND id=$2
abbrev pub find_row : Uuid → Uuid → List Row → Option Row
find_row tenant id rows = first (is_row tenant id) rows

-- The appointment that an idempotency key stands for, if its fingerprint is the request's.
unfoldable pub replay_key : Env → Uuid → String → KeyRow → Tx Appointment
replay_key env tenant fingerprint k = do
  raise_if (not (str_eq k.fingerprint fingerprint)) idempotency_conflict
  send env load_appointment
  found ← read (λ db. find_row tenant k.appointment_id db.appointments)
  row ← expect no_rows found
  pure (scan row)

unfoldable pub replay_found : Env → Uuid → String → Option KeyRow → Tx (Option Appointment)
unfolding replay_key
replay_found env tenant fingerprint none = pure none
replay_found env tenant fingerprint (some k) = do
  a ← replay_key env tenant fingerprint k
  pure (some a)

-- Replay: a result that was committed before, or none.
unfoldable pub replay :
    Env → Uuid → String → String → String → String → Db → Result RepoError (Option Appointment) × Db
unfolding with_tenant_tx replay_found
replay env tenant scope operation key fingerprint = with_tenant_tx env do
  send env find_key
  found ← read (λ db. find_key_row tenant scope operation key db.keys)
  replay_found env tenant fingerprint found

-- INSERT INTO public.appointments, with the constraints that it meets.
unfoldable pub insert_row : Row → Tx (Unit {0})
insert_row row db =
    if not (row_checks row)
    then err database
    else if any (λ r. r.id == row.id) db.appointments || any (excludes row) db.appointments
    then err sql_conflict
    else ok (tt, record db { appointments = row ∷ db.appointments })

-- INSERT INTO public.idempotency_keys, with its constraints.
unfoldable pub insert_key_row : KeyRow → Tx (Unit {0})
insert_key_row k db =
    if not (key_check k.key && fingerprint_check k.fingerprint)
    then err database
    else if any (is_key_row k.tenant_id k.principal_scope k.operation k.key) db.keys
    then err sql_conflict
    else ok (tt, record db { keys = k ∷ db.keys })

abbrev pub event_payload : Appointment → Payload
event_payload a = record {
  appointment_id = a.id;
  branch_id = a.branch_id;
  barber_id = a.barber_id;
  service_id = a.service_id;
  start_at = a.start_at;
  end_at = a.end_at;
  status = a.status;
}

abbrev pub event_row : Uuid → Appointment → String → EventRow
event_row tenant a event_name = record {
  tenant_id = tenant;
  appointment_id = a.id;
  kind = event_name;
  payload = event_payload a;
}

abbrev pub outbox_row : Env → Uuid → Appointment → String → OutboxRow
outbox_row env tenant a outbox_type = record {
  id = env.new_outbox_id;
  tenant_id = tenant;
  aggregate_id = a.id;
  kind = outbox_type;
  payload = event_payload a;
  created_at = env.now;
  published_at = none;
  publishing_at = none;
  publish_attempts = 0;
  failed_at = none;
}

-- INSERT INTO public.appointment_events
unfoldable pub insert_event_row : EventRow → Tx (Unit {0})
insert_event_row e db = ok (tt, record db { events = e ∷ db.events })

-- INSERT INTO public.outbox_events; its id is the primary key.
unfoldable pub insert_outbox_row : OutboxRow → Tx (Unit {0})
insert_outbox_row o db =
    if any (λ (p : OutboxRow). p.id == o.id) db.outbox
    then err sql_conflict
    else ok (tt, record db { outbox = o ∷ db.outbox })

-- appendEvent: the audit event and the message for the outbox, in the same transaction.
unfoldable pub append_event : Env → Uuid → Appointment → String → String → Tx (Unit {0})
unfolding insert_event_row insert_outbox_row
append_event env tenant a event_name outbox_type = do
  send env insert_event
  insert_event_row (event_row tenant a event_name)
  send env insert_outbox
  insert_outbox_row (outbox_row env tenant a outbox_type)

-- The arguments of Create that follow the tenant and the input.
pub record Booking : Type 0 where
  pub input : CreateInput
  pub end_at : Time
  pub occupied_start_at : Time
  pub occupied_end_at : Time
  pub principal_scope : String
  pub operation : String
  pub key : String
  pub fingerprint : String

abbrev pub new_row : Env → Uuid → Booking → Row
new_row env tenant b = record {
  tenant_id = tenant;
  id = env.new_appointment_id;
  branch_id = b.input.branch_id;
  barber_id = b.input.barber_id;
  service_id = b.input.service_id;
  customer_id = b.input.customer_id;
  customer_name = b.input.customer_name;
  customer_contact = b.input.customer_contact;
  start_at = env.kept_time b.input.start_at;
  end_at = env.kept_time b.end_at;
  occupied_start_at = env.kept_time b.occupied_start_at;
  occupied_end_at = env.kept_time b.occupied_end_at;
  status = "pending";
}

abbrev pub new_key_row : Env → Uuid → Booking → KeyRow
new_key_row env tenant b = record {
  tenant_id = tenant;
  principal_scope = b.principal_scope;
  operation = b.operation;
  key = b.key;
  fingerprint = b.fingerprint;
  appointment_id = env.new_appointment_id;
  created_at = env.now;
}

unfoldable pub keep_key : Env → Uuid → Booking → Tx (Unit {0})
unfolding insert_key_row
keep_key env tenant b =
    if str_eq b.key ""
    then pure tt
    else do send env insert_key; insert_key_row (new_key_row env tenant b)

unfoldable pub insert_new : Env → Uuid → Booking → Tx Appointment
unfolding insert_row keep_key append_event
insert_new env tenant b = do
  send env insert_appointment
  insert_row (new_row env tenant b)
  keep_key env tenant b
  append_event env tenant (scan (new_row env tenant b)) "AppointmentCreated" "appointment.created"
  pure (scan (new_row env tenant b))

unfoldable pub replay_or_insert : Env → Uuid → Booking → Option KeyRow → Tx Appointment
unfolding replay_key insert_new
replay_or_insert env tenant b none = insert_new env tenant b
replay_or_insert env tenant b (some k) = replay_key env tenant b.fingerprint k

unfoldable pub create_body : Env → Uuid → Booking → Tx Appointment
unfolding replay_or_insert
create_body env tenant b = if str_eq b.key "" then insert_new env tenant b else do
  send env lock_key
  send env find_key
  found ← read (λ db. find_key_row tenant b.principal_scope b.operation b.key db.keys)
  replay_or_insert env tenant b found

-- Create
unfoldable pub create : Env → Uuid → Booking → Db → Result RepoError Appointment × Db
unfolding with_tenant_tx create_body
create env tenant b = with_tenant_tx env (create_body env tenant b)
