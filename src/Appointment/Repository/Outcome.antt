-- ===== src/Appointment/Repository/Outcome.antt =====
-- What a Create that has an answer has done.
use shearix_platform.Shared.{
  String, Bool, true, false, ◌≡◌, refl, ap, ◌∙◌, ◌⊎◌, inl, inr, not, ◌&&◌, Option, none, some, ◌∷◌,
  ◌==◌, ok, any, arith, if◌then◌else◌,
}
use shearix_platform.Platform.Ids.{Uuid}
use shearix_platform.Appointment.Domain.{Appointment}
use shearix_platform.Appointment.Store.{
  Row, KeyRow, Db, no_rows, idempotency_conflict, database, sql_conflict, Env, lock_key, find_key,
  load_appointment, insert_appointment, insert_key, ◌>>=◌, ◌>>◌, pure, send, read,
}
use shearix_platform.Appointment.Store.Constraints.{
  row_checks, excludes, key_check, fingerprint_check, is_key_row,
}
use shearix_platform.Appointment.Store.Keeps.{
  Answers, >>=-Answers, send_then, raise_if_then, expect_then, pure-Answers, with_tenant_tx-ok,
  with_tenant_tx-cases, write-Answers,
}
use shearix_platform.Appointment.Repository.{
  Booking, scan, find_row, find_key_row, new_row, new_key_row, replay_key, insert_row,
  insert_key_row, keep_key, append_event, insert_new, replay_or_insert, create_body, create,
}
use shearix_platform.Appointment.Consistent.{insert_row-Answers}
use shearix_platform.Appointment.Lifecycle.Outcome.{recorded, append_event-Answers}
use text.Mathlib.Text.{◌==◌ as str_eq}

-- The key row of the booking is found.
abbrev pub key_of : Uuid → Booking → Db → Option KeyRow
key_of tenant b db = find_key_row tenant b.principal_scope b.operation b.key db.keys

-- The tables with the new appointment.
abbrev pub with_new_row : Row → Db → Db
with_new_row row db = record db { appointments = row ∷ db.appointments }

-- The tables with the booking's key, if it has one.
abbrev pub with_key : Env → Uuid → Booking → Db → Db
with_key env tenant b db =
    if str_eq b.key "" then db else record db { keys = new_key_row env tenant b ∷ db.keys }

-- The tables after a booking was inserted.
abbrev pub booked : Env → Uuid → Booking → Db → Db
booked env tenant b db =
    recorded env tenant (scan (new_row env tenant b)) "AppointmentCreated" "appointment.created"
      (with_key env tenant b (with_new_row (new_row env tenant b) db))

-- How a Create came to the answer `a` and the tables `db'`: it gave back the appointment that the
-- key stands for, or it inserted a new one.
pub data Created (env : Env) (tenant : Uuid) (b : Booking) (db : Db) (a : Appointment) (db' : Db)
    : Type 0 where
  replayed :
      (k : KeyRow) (row : Row)
      → str_eq b.key "" ≡ false
      → key_of tenant b db ≡ some k
      → str_eq k.fingerprint b.fingerprint ≡ true
      → find_row tenant k.appointment_id db.appointments ≡ some row
      → a ≡ scan row
      → db' ≡ db
      → Created env tenant b db a db'
  inserted :
      (str_eq b.key "" ≡ true) ⊎ (key_of tenant b db ≡ none)
      → row_checks (new_row env tenant b) ≡ true
      → any (λ (r : Row). r.id == env.new_appointment_id) db.appointments ≡ false
      → any (excludes (new_row env tenant b)) db.appointments ≡ false
      → a ≡ scan (new_row env tenant b)
      → db' ≡ booked env tenant b db
      → Created env tenant b db a db'

kept :
    (no_key : Bool) (env : Env) (k : KeyRow) (db : Db) (u : Unit {0}) (db' : Db)
    → Answers (if no_key then pure tt else (do send env insert_key; insert_key_row k)) db u db'
    → db' ≡ (if no_key then db else record db { keys = k ∷ db.keys })
unfolding insert_key_row
kept true env k db u db' h = (pure-Answers tt db u db' h).1
kept false env k db u db' h =
    let (p, h1) = send_then env insert_key (insert_key_row k) db u db' h in
    let (q, r, w) =
      write-Answers (not (key_check k.key && fingerprint_check k.fingerprint))
        (any (is_key_row k.tenant_id k.principal_scope k.operation k.key) db.keys) database
        sql_conflict (record db { keys = k ∷ db.keys }) u db' h1 in
    w

keep_key-Answers :
    (env : Env) (tenant : Uuid) (b : Booking) (db : Db) (u : Unit {0}) (db' : Db)
    → Answers (keep_key env tenant b) db u db'
    → db' ≡ with_key env tenant b db
unfolding keep_key
keep_key-Answers env tenant b db u db' h =
    kept (str_eq b.key "") env (new_key_row env tenant b) db u db' h

pub replay_key-Answers :
    (env : Env) (tenant : Uuid) (f : String) (k : KeyRow) (db : Db) (a : Appointment) (db' : Db)
    → Answers (replay_key env tenant f k) db a db'
    → (row : Row) × (str_eq k.fingerprint f ≡ true)
      × (find_row tenant k.appointment_id db.appointments ≡ some row)
      × (a ≡ scan row)
      × (db' ≡ db)
unfolding replay_key
replay_key-Answers env tenant f k db a db' h =
    let (p, h1) = raise_if_then (not (str_eq k.fingerprint f)) idempotency_conflict _ db a db' h in
    let (q, h2) = send_then env load_appointment _ db a db' h1 in
    let (row, found, h3) =
      expect_then no_rows (find_row tenant k.appointment_id db.appointments) _ db a db' h2 in
    (row, ground arith, found, ground arith, ground arith)

insert_new-Answers :
    (env : Env) (tenant : Uuid) (b : Booking) (db : Db) (a : Appointment) (db' : Db)
    → Answers (insert_new env tenant b) db a db'
    → (row_checks (new_row env tenant b) ≡ true)
      × (any (λ (r : Row). r.id == env.new_appointment_id) db.appointments ≡ false)
      × (any (excludes (new_row env tenant b)) db.appointments ≡ false)
      × (a ≡ scan (new_row env tenant b))
      × (db' ≡ booked env tenant b db)
unfolding insert_new
insert_new-Answers env tenant b db a db' h =
    let (p, h1) = send_then env insert_appointment _ db a db' h in
    let (u, (db1, e1, h2)) = >>=-Answers (insert_row (new_row env tenant b)) _ db a db' h1 in
    let (c, fresh, free, w1) = insert_row-Answers (new_row env tenant b) db u db1 e1 in
    let (v, (db2, e2, h3)) = >>=-Answers (keep_key env tenant b) _ db1 a db' h2 in
    let w2 = keep_key-Answers env tenant b db1 v db2 e2 in
    let (v', (db3, e3, h4)) =
      >>=-Answers
        (append_event env tenant (scan (new_row env tenant b)) "AppointmentCreated"
          "appointment.created")
        _ db2 a db' h3 in
    let w3 =
      append_event-Answers env tenant (scan (new_row env tenant b)) "AppointmentCreated"
        "appointment.created" db2 v' db3 e3 in
    let (answer, left) = pure-Answers (scan (new_row env tenant b)) db3 a db' h4 in
    (
      c,
      fresh,
      free,
      answer,
      left
          ∙ w3
          ∙ ap
              (recorded env tenant (scan (new_row env tenant b)) "AppointmentCreated"
                "appointment.created")
              (w2 ∙ ap (with_key env tenant b) w1),
    )

inserted_by :
    (env : Env) (tenant : Uuid) (b : Booking) (db : Db) (a : Appointment) (db' : Db)
    → (str_eq b.key "" ≡ true) ⊎ (key_of tenant b db ≡ none)
    → Answers (insert_new env tenant b) db a db'
    → Created env tenant b db a db'
inserted_by env tenant b db a db' why h =
    let (c, fresh, free, e, w) = insert_new-Answers env tenant b db a db' h in
    inserted why c fresh free e w

by_key :
    (env : Env) (tenant : Uuid) (b : Booking) (found : Option KeyRow) (db : Db) (a : Appointment)
    (db' : Db)
    → str_eq b.key "" ≡ false
    → key_of tenant b db ≡ found
    → Answers (replay_or_insert env tenant b found) db a db'
    → Created env tenant b db a db'
unfolding replay_or_insert
by_key env tenant b none db a db' keyed e h = inserted_by env tenant b db a db' (inr e) h
by_key env tenant b (some k) db a db' keyed e h =
    let (row, same, found, answer, left) =
      replay_key-Answers env tenant b.fingerprint k db a db' h in
    replayed k row keyed e same found answer left

keyed_or_not :
    (no_key : Bool) (env : Env) (tenant : Uuid) (b : Booking) (db : Db) (a : Appointment) (db' : Db)
    → str_eq b.key "" ≡ no_key
    → Answers
        (if no_key then insert_new env tenant b else (do
          send env lock_key
          send env find_key
          found ← read (key_of tenant b)
          replay_or_insert env tenant b found))
        db
        a
        db'
    → Created env tenant b db a db'
keyed_or_not true env tenant b db a db' e h = inserted_by env tenant b db a db' (inl e) h
keyed_or_not false env tenant b db a db' e h =
    let (p, h1) = send_then env lock_key _ db a db' h in
    let (q, h2) = send_then env find_key _ db a db' h1 in
    by_key env tenant b (key_of tenant b db) db a db' e refl h2

create_body-Created :
    (env : Env) (tenant : Uuid) (b : Booking) (db : Db) (a : Appointment) (db' : Db)
    → Answers (create_body env tenant b) db a db'
    → Created env tenant b db a db'
unfolding create_body
create_body-Created env tenant b db a db' h =
    keyed_or_not (str_eq b.key "") env tenant b db a db' refl h

pub create-ok :
    (env : Env) (tenant : Uuid) (b : Booking) (db : Db) (a : Appointment)
    → (create env tenant b db).0 ≡ ok a
    → Created env tenant b db a (create env tenant b db).1
unfolding create
create-ok env tenant b db a h =
    create_body-Created env tenant b db a _
      (with_tenant_tx-ok env (create_body env tenant b) db a h)

-- However a Create ends, it left the tables as they were or those of an appointment that is there.
pub create-cases :
    (env : Env) (tenant : Uuid) (b : Booking) (db : Db)
    → ((create env tenant b db).1 ≡ db)
      ⊎ ((a : Appointment) × Created env tenant b db a (create env tenant b db).1)
unfolding create
create-cases env tenant b db = elim (with_tenant_tx-cases env (create_body env tenant b) db) [
  | inl e ↦ inl e
  | inr (a, e) ↦ inr (a, create_body-Created env tenant b db a _ e)
]
