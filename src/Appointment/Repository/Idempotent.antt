-- ===== src/Appointment/Repository/Idempotent.antt =====
-- Retries: a Create with the same key and fingerprint gives back the first appointment.
use shearix_platform.Shared.{
  String, true, false, ◌≡◌, ap, ◌∙◌, Option, some, ==_refl, ok, err, first,
}
use shearix_platform.Platform.Ids.{Uuid}
use shearix_platform.Appointment.Domain.{Appointment}
use shearix_platform.Appointment.Store.{
  Row, KeyRow, Db, RepoError, idempotency_conflict, Stmt, Env, begin_tx, commit_tx, lock_key,
  find_key, load_appointment, no_rows, Tx, ◌>>=◌, pure, expect, with_tenant_tx, settle,
}
use shearix_platform.Appointment.Store.Constraints.{is_key_row, is_row}
use shearix_platform.Appointment.Repository.{
  Booking, scan, find_row, new_row, new_key_row, replay_key, replay_or_insert, create_body, create,
}
use shearix_platform.Appointment.Repository.Outcome.{
  key_of, Created, replayed, inserted, booked, create-ok,
}
use text.Mathlib.Text.{◌==◌ as str_eq}
use text.Mathlib.TextEquality.{eq_iff}
use text.Mathlib.TextPositions.{eq_refl}

-- No statement of the transaction fails.
abbrev pub IsQuiet : Env → Type 0
IsQuiet env = (s : Stmt) → env.fails s ≡ false

-- A body that answers is committed.
pub commits :
    {A : Type 0} (env : Env) (body : Tx A) (db : Db) (a : A) (db' : Db)
    → IsQuiet env
    → body db ≡ ok (a, db')
    → with_tenant_tx env body db ≡ (ok a, db')
unfolding with_tenant_tx settle
commits env body db a db' quiet e = rw (quiet begin_tx, e, quiet commit_tx)

-- A body that raises an error is rolled back.
rolls_back :
    {A : Type 0} (env : Env) (body : Tx A) (db : Db) (x : RepoError)
    → IsQuiet env
    → body db ≡ err x
    → with_tenant_tx env body db ≡ (err x, db)
unfolding with_tenant_tx settle
rolls_back env body db x quiet e = rw (quiet begin_tx, e)

pub replay_key-found :
    (env : Env) (tenant : Uuid) (f : String) (k : KeyRow) (db : Db) (row : Row)
    → IsQuiet env
    → str_eq k.fingerprint f ≡ true
    → find_row tenant k.appointment_id db.appointments ≡ some row
    → replay_key env tenant f k db ≡ ok (scan row, db)
unfolding replay_key
replay_key-found env tenant f k db row quiet same found =
    rw (same, quiet load_appointment)
      (ap (λ (o : Option Row). ◌>>=◌ (expect no_rows o) (λ r. pure (scan r)) db) found)

replay_key-clash :
    (env : Env) (tenant : Uuid) (f : String) (k : KeyRow) (db : Db)
    → str_eq k.fingerprint f ≡ false
    → replay_key env tenant f k db ≡ err idempotency_conflict
unfolding replay_key
replay_key-clash env tenant f k db differs = rw differs

module _ (env : Env) (tenant : Uuid) (b : Booking) (quiet : IsQuiet env)
    (keyed : str_eq b.key "" ≡ false) where
  to_replay :
      (db : Db)
      → create_body env tenant b db ≡ replay_or_insert env tenant b (key_of tenant b db) db
  unfolding create_body
  to_replay db = rw (keyed, quiet lock_key, quiet find_key)

  -- A key that is there, with the request's fingerprint, stands for its appointment.
  create_keyed :
      (db : Db) (k : KeyRow) (row : Row)
      → key_of tenant b db ≡ some k
      → str_eq k.fingerprint b.fingerprint ≡ true
      → find_row tenant k.appointment_id db.appointments ≡ some row
      → create env tenant b db ≡ (ok (scan row), db)
  unfolding create replay_or_insert
  create_keyed db k row e same found =
      commits env (create_body env tenant b) db (scan row) db quiet (
        to_replay db
        ∙ ap (λ o. replay_or_insert env tenant b o db) e
        ∙ replay_key-found env tenant b.fingerprint k db row quiet same found)

  -- A key that is there with another fingerprint is refused, and nothing changes.
  create_clash :
      (db : Db) (k : KeyRow)
      → key_of tenant b db ≡ some k
      → str_eq k.fingerprint b.fingerprint ≡ false
      → create env tenant b db ≡ (err idempotency_conflict, db)
  unfolding create replay_or_insert
  create_clash db k e differs =
      rolls_back env (create_body env tenant b) db idempotency_conflict quiet (
        to_replay db
        ∙ ap (λ o. replay_or_insert env tenant b o db) e
        ∙ replay_key-clash env tenant b.fingerprint k db differs)

-- The key and the appointment of a booking that was just inserted are found.
key_of-booked :
    (env : Env) (tenant : Uuid) (b : Booking) (db : Db)
    → str_eq b.key "" ≡ false
    → key_of tenant b (booked env tenant b db) ≡ some (new_key_row env tenant b)
unfolding first is_key_row
key_of-booked env tenant b db keyed =
    rw (keyed, ==_refl tenant, eq_refl b.principal_scope, eq_refl b.operation, eq_refl b.key)

find_row-booked :
    (env : Env) (tenant : Uuid) (b : Booking) (db : Db)
    → str_eq b.key "" ≡ false
    → find_row tenant env.new_appointment_id (booked env tenant b db).appointments
      ≡ some (new_row env tenant b)
unfolding first is_row
find_row-booked env tenant b db keyed = rw (keyed, ==_refl tenant, ==_refl env.new_appointment_id)

same_text : (s t : String) → str_eq s t ≡ true → s ≡ t
same_text s t h = (eq_iff s t).0 h

-- After a Create that had an answer the key of the booking stands for that answer.
pub record IsKept (tenant : Uuid) (b : Booking) (a : Appointment) (db : Db) : Type 0 where
  pub key_row : KeyRow
  pub row : Row
  pub keyed : key_of tenant b db ≡ some key_row
  pub same : str_eq key_row.fingerprint b.fingerprint ≡ true
  pub found : find_row tenant key_row.appointment_id db.appointments ≡ some row
  pub answer : a ≡ scan row

pub kept :
    (env : Env) (tenant : Uuid) (b : Booking) (db : Db) (a : Appointment) (db' : Db)
    → str_eq b.key "" ≡ false
    → Created env tenant b db a db'
    → IsKept tenant b a db'
kept env tenant b db a db' keyed (replayed k row e found same there answer left) =
    rw left (record {
      key_row = k;
      row = row;
      keyed = found;
      same = same;
      found = there;
      answer = answer;
    })
kept env tenant b db a db' keyed (inserted why c fresh free answer left) = rw left (record {
  key_row = new_key_row env tenant b;
  row = new_row env tenant b;
  keyed = key_of-booked env tenant b db keyed;
  same = eq_refl b.fingerprint;
  found = find_row-booked env tenant b db keyed;
  answer = answer;
})

-- A retry of a Create that had an answer, with the same key and the same request, gives the same
-- answer and changes nothing, if no statement of the retry fails.
pub create_again :
    (env env' : Env) (tenant : Uuid) (b : Booking) (db : Db) (a : Appointment)
    → IsQuiet env'
    → str_eq b.key "" ≡ false
    → (create env tenant b db).0 ≡ ok a
    → create env' tenant b (create env tenant b db).1 ≡ (ok a, (create env tenant b db).1)
create_again env env' tenant b db a quiet keyed h =
    let k = kept env tenant b db a _ keyed (create-ok env tenant b db a h) in
    rw k.answer (create_keyed env' tenant b quiet keyed _ k.key_row k.row k.keyed k.same k.found)

-- After a Create that had an answer, another request under the same key is refused with an
-- idempotency conflict and changes nothing, if no statement fails.
pub create_reused_key :
    (env env' : Env) (tenant : Uuid) (b b' : Booking) (db : Db) (a : Appointment)
    → IsQuiet env'
    → str_eq b.key "" ≡ false
    → (create env tenant b db).0 ≡ ok a
    → b'.principal_scope ≡ b.principal_scope
    → b'.operation ≡ b.operation
    → b'.key ≡ b.key
    → str_eq b.fingerprint b'.fingerprint ≡ false
    → create env' tenant b' (create env tenant b db).1
      ≡ (err idempotency_conflict, (create env tenant b db).1)
create_reused_key env env' tenant b b' db a quiet keyed h e1 e2 e3 differs =
    let k = kept env tenant b db a _ keyed (create-ok env tenant b db a h) in
    create_clash env' tenant b' quiet (rw e3 keyed) _ k.key_row (rw (e1, e2, e3) k.keyed)
      (rw (same_text k.key_row.fingerprint b.fingerprint k.same) differs)
