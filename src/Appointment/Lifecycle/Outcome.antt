-- ===== src/Appointment/Lifecycle/Outcome.antt =====
-- What a Transition or a Reschedule that has an answer has done.
use Prim.Native.String.{◌++◌ as str_append}
use shearix_platform.Shared.{
  String, true, false, ◌≡◌, ◌⊎◌, inl, inr, refl, sym, none, ap, ◌∙◌, not, ◌&&◌, some, ◌∷◌, ok,
  arith,
}
use shearix_platform.GoTime.{Time}
use shearix_platform.Platform.Ids.{Uuid}
use shearix_platform.Appointment.Domain.{Appointment}
use shearix_platform.Appointment.Store.{
  Row, EventRow, OutboxRow, Db, not_found, invalid_transition, sql_conflict, Env, insert_event,
  insert_outbox, select_status, update_status, update_times, ◌>>◌, pure,
}
use shearix_platform.Appointment.Store.Constraints.{row_checks, is_active}
use text.Mathlib.Text.{◌==◌ as str_eq}
use shearix_platform.Appointment.Store.Keeps.{
  Answers, >>=-Answers, send_then, raise_if_then, expect_then, pure-Answers, with_tenant_tx-ok,
  with_tenant_tx-cases, write-Answers,
}
use shearix_platform.Appointment.Repository.{scan, find_row, event_row, outbox_row, append_event}
use shearix_platform.Appointment.Lifecycle.{
  transitions, replace, update_row, title, transition_body, transition, moved, reschedule_body,
  reschedule,
}
use shearix_platform.Appointment.Lifecycle.Edges.{
  Edge, Edge-of, Announced, Edge-Announced, find_row-is, ids_of, find_row-own, Replaced,
  find_row-Replaced,
}
use shearix_platform.Appointment.Consistent.{update_row-Answers}

-- The tables with one event and one message more.
abbrev pub recorded : Env → Uuid → Appointment → String → String → Db → Db
recorded env tenant a event_name outbox_type db = record db {
  events = event_row tenant a event_name ∷ db.events;
  outbox = outbox_row env tenant a outbox_type ∷ db.outbox;
}

-- The tables with a row replaced.
abbrev pub with_row : Row → Db → Db
with_row row db = record db { appointments = replace row db.appointments }

pub append_event-Answers :
    (env : Env) (tenant : Uuid) (a : Appointment) (event_name outbox_type : String) (db : Db)
    (u : Unit {0}) (db' : Db)
    → Answers (append_event env tenant a event_name outbox_type) db u db'
    → db' ≡ recorded env tenant a event_name outbox_type db
unfolding append_event
append_event-Answers env tenant a event_name outbox_type db u db' h =
    let (p, h1) = send_then env insert_event _ db u db' h in
    let (q, h2) = send_then env insert_outbox _ _ u db' h1 in
    let (r, s, e) = write-Answers false _ sql_conflict sql_conflict _ u db' h2 in e

-- The end of both changes: the row is written, and the event recorded.
finish :
    (env : Env) (tenant : Uuid) (row : Row) (event_name outbox_type : String) (db : Db)
    (a : Appointment) (db' : Db)
    → Answers
        (do
          update_row row
          append_event env tenant (scan row) event_name outbox_type
          pure (scan row))
        db
        a
        db'
    → (row_checks row ≡ true)
      × (a ≡ scan row)
      × (db' ≡ recorded env tenant (scan row) event_name outbox_type (with_row row db))
finish env tenant row event_name outbox_type db a db' h =
    let (u, (db1, e, rest)) = >>=-Answers (update_row row) _ db a db' h in
    let (c, f, w) = update_row-Answers row db u db1 e in
    let (u', (db2, e', rest')) =
      >>=-Answers (append_event env tenant (scan row) event_name outbox_type) _ db1 a db' rest in
    let w' = append_event-Answers env tenant (scan row) event_name outbox_type db1 u' db2 e' in
    let (answer, left) = pure-Answers (scan row) db2 a db' rest' in
    (c, answer, left ∙ w' ∙ ap (recorded env tenant (scan row) event_name outbox_type) w)

-- What is known of a Transition that answers `a` and leaves `db'`.
abbrev Moved : Env → Uuid → Uuid → String → Db → Appointment → Db → Type 0
Moved env tenant id to db a db' =
    (old : Row) × (find_row tenant id db.appointments ≡ some old)
    × (transitions old.status to ≡ true)
    × (a ≡ scan (record old { status = to }))
    × (db'
        ≡ recorded env tenant (scan (record old { status = to })) (title to)
            (str_append "appointment." to) (with_row (record old { status = to }) db))

transition_body-Answers :
    (env : Env) (tenant id : Uuid) (to : String) (db : Db) (a : Appointment) (db' : Db)
    → Answers (transition_body env tenant id to) db a db'
    → Moved env tenant id to db a db'
unfolding transition_body
transition_body-Answers env tenant id to db a db' h =
    let (p, h1) = send_then env select_status _ db a db' h in
    let (old, found, h2) =
      expect_then not_found (find_row tenant id db.appointments) _ db a db' h1 in
    let (q, h3) =
      raise_if_then (not (transitions old.status to)) invalid_transition _ db a db' h2 in
    let (r, h4) = send_then env update_status _ db a db' h3 in
    let (c, e, w) =
      finish env tenant (record old { status = to }) (title to) (str_append "appointment." to) db a
        db' h4 in
    (old, found, ground arith, e, w)

pub transition-cases :
    (env : Env) (tenant id : Uuid) (to : String) (db : Db)
    → ((transition env tenant id to db).1 ≡ db)
      ⊎ ((a : Appointment) × Moved env tenant id to db a (transition env tenant id to db).1)
unfolding transition
transition-cases env tenant id to db =
    elim (with_tenant_tx-cases env (transition_body env tenant id to) db) [
      | inl e ↦ inl e
      | inr (a, e) ↦ inr (a, transition_body-Answers env tenant id to db a _ e)
    ]

-- What an update of the booking `id` from the row `old` to `row` leaves: every other row in its
-- place, the idempotency keys as they were, and one event and one unsent message more.
pub record Updated (tenant id : Uuid) (old row : Row) (kind outbox_type : String) (db db' : Db)
    : Type 0 where
  pub of_tenant : old.tenant_id ≡ tenant
  pub of_id : old.id ≡ id
  pub rows : Replaced old row db.appointments db'.appointments
  pub same_keys : db'.keys ≡ db.keys
  pub event : EventRow
  pub event_added : db'.events ≡ event ∷ db.events
  pub event_of : (event.tenant_id ≡ tenant) × (event.appointment_id ≡ id) × (event.kind ≡ kind)
  pub event_tells : (event.payload.status ≡ row.status) × (event.payload.start_at ≡ row.start_at)
  pub message : OutboxRow
  pub message_added : db'.outbox ≡ message ∷ db.outbox
  pub message_of :
      (message.tenant_id ≡ tenant) × (message.aggregate_id ≡ id) × (message.kind ≡ outbox_type)
  pub message_tells :
      (message.payload.status ≡ row.status) × (message.payload.start_at ≡ row.start_at)
  pub unsent :
      (message.published_at ≡ none) × (message.failed_at ≡ none) × (message.publish_attempts ≡ 0)

found_Updated :
    (env : Env) (tenant id : Uuid) (old row : Row) (kind outbox_type : String) (db db' : Db)
    → find_row tenant id db.appointments ≡ some old
    → row.tenant_id ≡ old.tenant_id
    → row.id ≡ old.id
    → db' ≡ recorded env tenant (scan row) kind outbox_type (with_row row db)
    → Updated tenant id old row kind outbox_type db db'
found_Updated env tenant id old row kind outbox_type db db' found t i left =
    let (t', i') = ids_of tenant id old (find_row-is tenant id db.appointments old found) in
    rw left (record {
      of_tenant = sym t';
      of_id = sym i';
      rows =
          find_row-Replaced old row db.appointments
            (find_row-own tenant id db.appointments old row found t i);
      same_keys = refl;
      event = event_row tenant (scan row) kind;
      event_added = refl;
      event_of = (refl, i ∙ sym i', refl);
      event_tells = (refl, refl);
      message = outbox_row env tenant (scan row) outbox_type;
      message_added = refl;
      message_of = (refl, i ∙ sym i', refl);
      message_tells = (refl, refl);
      unsent = (refl, refl, refl);
    })

-- A Transition that has an answer found the booking of that tenant and id, and went along an edge of
-- the life cycle. The row's status is the new one and nothing else of it is changed, every other row
-- is as it was and in its place, and the answer is the new row. One event and one unsent message are
-- added, under the names of the new state, and they tell the new status; no key is changed.
pub transition-ok :
    (env : Env) (tenant id : Uuid) (to : String) (db : Db) (a : Appointment)
    → (transition env tenant id to db).0 ≡ ok a
    → (old : Row) × (kind : String) × (outbox_type : String) × Edge old.status to
      × Announced to kind outbox_type
      × (a ≡ scan (record old { status = to }))
      × Updated tenant id old
          (record old { status = to })
          kind
          outbox_type
          db
          (transition env tenant id to db).1
unfolding transition
transition-ok env tenant id to db a h =
    let (old, found, allowed, answer, left) =
      transition_body-Answers env tenant id to db a _
        (with_tenant_tx-ok env (transition_body env tenant id to) db a h) in
    let edge = Edge-of old.status to allowed in
    (
      old,
      title to,
      str_append "appointment." to,
      edge,
      Edge-Announced edge,
      answer,
      found_Updated env tenant id old (record old { status = to }) (title to)
          (str_append "appointment." to) db _ found refl refl left,
    )

reschedule_body-Answers :
    (env : Env) (tenant id : Uuid) (start_at end_at occupied_start_at occupied_end_at : Time)
    (db : Db) (a : Appointment) (db' : Db)
    → Answers
        (reschedule_body env tenant id start_at end_at occupied_start_at occupied_end_at)
        db
        a
        db'
    → (old : Row) × (find_row tenant id db.appointments ≡ some old)
      × (is_active old.status ≡ true)
      × (a ≡ scan (moved env old start_at end_at occupied_start_at occupied_end_at))
      × (db'
          ≡ recorded env tenant
              (scan (moved env old start_at end_at occupied_start_at occupied_end_at))
              "AppointmentRescheduled"
              "appointment.rescheduled"
              (with_row (moved env old start_at end_at occupied_start_at occupied_end_at) db))
unfolding reschedule_body is_active
reschedule_body-Answers env tenant id start_at end_at occupied_start_at occupied_end_at db a db' h =
    let (p, h1) = send_then env select_status _ db a db' h in
    let (old, found, h2) =
      expect_then not_found (find_row tenant id db.appointments) _ db a db' h1 in
    let (q, h3) =
      raise_if_then (not (str_eq old.status "pending") && not (str_eq old.status "confirmed"))
        invalid_transition _ db a db' h2 in
    let (r, h4) = send_then env update_times _ db a db' h3 in
    let (c, e, w) =
      finish env tenant (moved env old start_at end_at occupied_start_at occupied_end_at)
        "AppointmentRescheduled" "appointment.rescheduled" db a db' h4 in
    (old, found, ground arith, e, w)

pub reschedule-cases :
    (env : Env) (tenant id : Uuid) (s t u v : Time) (db : Db)
    → ((reschedule env tenant id s t u v db).1 ≡ db)
      ⊎ ((a : Appointment) × ((old : Row) × (find_row tenant id db.appointments ≡ some old)
            × (is_active old.status ≡ true)
            × (a ≡ scan (moved env old s t u v))
            × ((reschedule env tenant id s t u v db).1
                ≡ recorded env tenant
                    (scan (moved env old s t u v))
                    "AppointmentRescheduled"
                    "appointment.rescheduled"
                    (with_row (moved env old s t u v) db))))
unfolding reschedule
reschedule-cases env tenant id s t u v db =
    elim (with_tenant_tx-cases env (reschedule_body env tenant id s t u v) db) [
      | inl e ↦ inl e
      | inr (a, e) ↦ inr (a, reschedule_body-Answers env tenant id s t u v db a _ e)
    ]

-- Both rows are of the same booking: only its times may differ.
pub record IsMoved (old row : Row) : Type 0 where
  pub same_booking : (row.tenant_id ≡ old.tenant_id) × (row.id ≡ old.id)
  pub same_place :
      (row.branch_id ≡ old.branch_id)
      × (row.barber_id ≡ old.barber_id)
      × (row.service_id ≡ old.service_id)
  pub same_customer :
      (row.customer_id ≡ old.customer_id)
      × (row.customer_name ≡ old.customer_name)
      × (row.customer_contact ≡ old.customer_contact)
  pub same_status : row.status ≡ old.status

-- A Reschedule that has an answer found the booking of that tenant and id pending or confirmed. Its
-- row has the new times, as the table keeps them, and only its times differ; every other row is as
-- it was and in its place, and the answer is the new row. One event and one unsent message are added
-- that tell the new start; no key is changed.
pub reschedule-ok :
    (env : Env) (tenant id : Uuid) (start_at end_at occupied_start_at occupied_end_at : Time)
    (db : Db) (a : Appointment)
    → (reschedule env tenant id start_at end_at occupied_start_at occupied_end_at db).0 ≡ ok a
    → (old : Row) × (row : Row) × (is_active old.status ≡ true)
      × IsMoved old row
      × (row.start_at ≡ env.kept_time start_at)
      × (row.end_at ≡ env.kept_time end_at)
      × (row.occupied_start_at ≡ env.kept_time occupied_start_at)
      × (row.occupied_end_at ≡ env.kept_time occupied_end_at)
      × (a ≡ scan row)
      × Updated tenant id old row "AppointmentRescheduled" "appointment.rescheduled" db
          (reschedule env tenant id start_at end_at occupied_start_at occupied_end_at db).1
unfolding reschedule
reschedule-ok env tenant id start_at end_at occupied_start_at occupied_end_at db a h =
    let (old, found, active, answer, left) =
      reschedule_body-Answers env tenant id start_at end_at occupied_start_at occupied_end_at db a _
        (with_tenant_tx-ok env _ db a h) in
    let row = moved env old start_at end_at occupied_start_at occupied_end_at in
    (
      old,
      row,
      active,
      record {
        same_booking = (refl, refl);
        same_place = (refl, refl, refl);
        same_customer = (refl, refl, refl);
        same_status = refl;
      },
      refl,
      refl,
      refl,
      refl,
      answer,
      found_Updated env tenant id old row "AppointmentRescheduled" "appointment.rescheduled" db _
          found refl refl left,
    )
