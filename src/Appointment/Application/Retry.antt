-- ===== src/Appointment/Application/Retry.antt =====
-- Retries of a command: what was booked is answered again before any other service is asked.
use shearix_platform.Shared.{
  String, true, false, not, ◌≡◌, refl, ap, sym, ◌∙◌, Option, none, some, Result, ok, err,
  byte_length, str_eq, mapped-ok, refuse_if-ok, arith, Bool-cases, inl, inr,
}
use shearix_platform.Platform.Ids.{Uuid}
use shearix_platform.Platform.Library.{Library}
use shearix_platform.Platform.SchedulingDeps.{Service}
use shearix_platform.Appointment.Domain.{Appointment}
use shearix_platform.Appointment.Store.{Row, KeyRow, Db, RepoError, Env, find_key, ◌>>=◌}
use shearix_platform.Appointment.Store.Keeps.{
  Answers, >>=-Answers, send_then, pure-Answers, with_tenant_tx-ok,
}
use shearix_platform.Appointment.Repository.{
  scan, find_key_row, find_row, replay_key, replay_found, replay,
}
use shearix_platform.Appointment.Repository.Outcome.{replay_key-Answers, create-ok}
use shearix_platform.Appointment.Repository.Idempotent.{IsQuiet, commits, kept, replay_key-found}
use shearix_platform.Appointment.Application.{
  AppError, invalid_idempotency_key, Dependencies, CreateCommand, valid_idempotency_key,
  map_repository_error,
}
use shearix_platform.Appointment.Application.Booking.{
  Request, prepare_keyed, prepare, book_prepared, validate, booking_of, book_validated, book_new,
  after_replay, book_request, book,
}
use text.Mathlib.TextEquality.{eq_iff}

-- A key stands for an appointment that was answered.
pub record Stands (tenant : Uuid) (scope operation key print : String) (a : Appointment) (db : Db)
    : Type 0 where
  pub key_row : KeyRow
  pub row : Row
  pub keyed : find_key_row tenant scope operation key db.keys ≡ some key_row
  pub same : str_eq key_row.fingerprint print ≡ true
  pub found : find_row tenant key_row.appointment_id db.appointments ≡ some row
  pub answer : a ≡ scan row

module _ (env : Env) (tenant : Uuid) (scope operation key print : String) where
  found-Answers :
      (o : Option KeyRow) (db : Db) (a : Appointment) (db' : Db)
      → find_key_row tenant scope operation key db.keys ≡ o
      → Answers (replay_found env tenant print o) db (some a) db'
      → Stands tenant scope operation key print a db × (db' ≡ db)
  unfolding replay_found
  found-Answers none db a db' e h = absurd (cc)
  found-Answers (some k) db a db' e h =
      let (a', (db1, e1, e2)) = >>=-Answers (replay_key env tenant print k) _ db (some a) db' h in
      let (row, same, there, answer, left) = replay_key-Answers env tenant print k db a' db1 e1 in
      let (p, q) = pure-Answers (some a') db1 (some a) db' e2 in
      (
        record {
          key_row = k;
          row = row;
          keyed = e;
          same = same;
          found = there;
          answer = ground (arith, answer);
        },
        q ∙ left,
      )

  -- What Replay answered stands in the tables, and nothing changed.
  pub replay-ok :
      (db : Db) (a : Appointment)
      → (replay env tenant scope operation key print db).0 ≡ ok (some a)
      → Stands tenant scope operation key print a db
        × ((replay env tenant scope operation key print db).1 ≡ db)
  unfolding replay
  replay-ok db a h =
      let (p, h1) =
        send_then env find_key _ db (some a) _ (with_tenant_tx-ok env _ db (some a) h) in
      found-Answers (find_key_row tenant scope operation key db.keys) db a _ refl h1

  found_again :
      (k : KeyRow) (db : Db) (row : Row)
      → IsQuiet env
      → str_eq k.fingerprint print ≡ true
      → find_row tenant k.appointment_id db.appointments ≡ some row
      → replay_found env tenant print (some k) db ≡ ok (some (scan row), db)
  unfolding replay_found
  found_again k db row quiet same there =
      rw (◌>>=◌, replay_key-found env tenant print k db row quiet same there)

  -- What stands in the tables is replayed.
  pub replay-Stands :
      (db : Db) (a : Appointment)
      → IsQuiet env
      → Stands tenant scope operation key print a db
      → replay env tenant scope operation key print db ≡ (ok (some a), db)
  unfolding replay
  replay-Stands db a quiet s = commits env _ db (some a) db quiet (
      rw (quiet find_key) (
        ap (λ o. replay_found env tenant print o db) s.keyed
        ∙ found_again s.key_row db s.row quiet s.same s.found
        ∙ ap (λ (x : Appointment). ok (some x, db)) (sym s.answer)))

module _ (lib : Library) (deps : Dependencies) (cmd : CreateCommand) where
  key_not_empty :
      valid_idempotency_key cmd.idempotency_key ≡ true → str_eq cmd.idempotency_key "" ≡ false
  unfolding valid_idempotency_key byte_length
  key_not_empty h = elim (Bool-cases (str_eq cmd.idempotency_key "")) [
    | inl e ↦ absurd (cc (rw ((eq_iff cmd.idempotency_key "").0 e) at h))
    | inr e ↦ e
  ]

  -- A command that was prepared has a key.
  prepared_key : (r : Request) → prepare lib deps cmd ≡ ok r → str_eq cmd.idempotency_key "" ≡ false
  unfolding prepare
  prepared_key r h = key_not_empty (
      ground (
        arith,
        (refuse_if-ok (not (valid_idempotency_key cmd.idempotency_key)) invalid_idempotency_key
            (prepare_keyed lib deps cmd) h).0,
      ))

  abbrev StandsFor : Request → Appointment → Db → Type 0
  StandsFor r a db =
      Stands cmd.tenant.tenant_id r.scope cmd.operation cmd.idempotency_key r.print a db

  booked-Stands :
      (env : Env) (r : Request) (v : Result AppError Service) (db : Db) (a : Appointment)
      → str_eq cmd.idempotency_key "" ≡ false
      → (book_validated lib deps cmd env r v db).0 ≡ ok a
      → StandsFor r a (book_validated lib deps cmd env r v db).1
  unfolding book_validated booking_of
  booked-Stands env r (err e) db a keyed h = absurd (cc)
  booked-Stands env r (ok service) db a keyed h =
      let b = booking_of lib deps cmd r service in
      let k =
        kept env cmd.tenant.tenant_id b db a _ keyed
          (create-ok env cmd.tenant.tenant_id b db a (mapped-ok map_repository_error _ h)) in
      record {
        key_row = k.key_row;
        row = k.row;
        keyed = k.keyed;
        same = k.same;
        found = k.found;
        answer = k.answer;
      }

  after_replay-Stands :
      (env env' : Env) (meanwhile : Db → Db) (r : Request)
      (found : Result RepoError (Option Appointment)) (db db' : Db) (a : Appointment)
      → str_eq cmd.idempotency_key "" ≡ false
      → replay env cmd.tenant.tenant_id r.scope cmd.operation cmd.idempotency_key r.print db
        ≡ (found, db')
      → (after_replay lib deps cmd env' meanwhile r found db').0 ≡ ok a
      → StandsFor r a (after_replay lib deps cmd env' meanwhile r found db').1
  unfolding after_replay book_new
  after_replay-Stands env env' meanwhile r (err e) db db' a keyed eq h = absurd (cc)
  after_replay-Stands env env' meanwhile r (ok none) db db' a keyed eq h =
      booked-Stands env' r (validate lib deps cmd r.input) (meanwhile db') a keyed h
  after_replay-Stands env env' meanwhile r (ok (some b)) db db' a keyed eq h =
      let e0 = ap (λ (p : Result RepoError (Option Appointment) × Db). p.0) eq in
      let e1 = ap (λ (p : Result RepoError (Option Appointment) × Db). p.1) eq in
      let (s, left) =
        replay-ok env cmd.tenant.tenant_id r.scope cmd.operation cmd.idempotency_key r.print db b
          e0 in
      let same_tables : db ≡ db' = sym left ∙ e1 in
      let same_answer : b ≡ a = ground (arith, h) in rw (← same_tables, ← same_answer) s

  book_request-Stands :
      (env env' : Env) (meanwhile : Db → Db) (r : Request) (db : Db) (a : Appointment)
      → str_eq cmd.idempotency_key "" ≡ false
      → (book_request lib deps cmd env env' meanwhile r db).0 ≡ ok a
      → StandsFor r a (book_request lib deps cmd env env' meanwhile r db).1
  unfolding book_request
  book_request-Stands env env' meanwhile r db a keyed h =
      after_replay-Stands env env' meanwhile r _ db _ a keyed refl h

  -- A request that stands is answered from the tables.
  book_request-again :
      (env env' : Env) (meanwhile : Db → Db) (r : Request) (db : Db) (a : Appointment)
      → IsQuiet env
      → StandsFor r a db
      → book_request lib deps cmd env env' meanwhile r db ≡ (ok a, db)
  unfolding book_request after_replay
  book_request-again env env' meanwhile r db a quiet s =
      ap
        (λ (p : Result RepoError (Option Appointment) × Db).
          after_replay lib deps cmd env' meanwhile r p.0 p.1)
        (replay-Stands env cmd.tenant.tenant_id r.scope cmd.operation cmd.idempotency_key r.print db
          a quiet s)

module _ (lib : Library) (deps deps' : Dependencies) (cmd : CreateCommand) where
  prepared_again :
      (p p' : Result AppError Request) (env env' envs' envs'' : Env)
      (meanwhile meanwhile' : Db → Db) (db : Db) (a : Appointment)
      → IsQuiet envs'
      → prepare lib deps cmd ≡ p
      → p' ≡ p
      → (book_prepared lib deps cmd env env' meanwhile p db).0 ≡ ok a
      → book_prepared lib deps' cmd envs' envs'' meanwhile' p'
          (book_prepared lib deps cmd env env' meanwhile p db).1
        ≡ (ok a, (book_prepared lib deps cmd env env' meanwhile p db).1)
  unfolding book_prepared
  prepared_again (err e) p' env env' envs' envs'' meanwhile meanwhile' db a quiet p q h =
      absurd (cc)
  prepared_again (ok r) p' env env' envs' envs'' meanwhile meanwhile' db a quiet p q h = rw q (
      book_request-again lib deps' cmd envs' envs'' meanwhile' r _ a quiet (
        book_request-Stands lib deps cmd env env' meanwhile r db a (prepared_key lib deps cmd r p)
          h))

-- A retry of a Create command that had an answer gives the same appointment and changes nothing,
-- whatever the other services say about the branch, the barber, the service and the slot by then,
-- if the request is prepared as before and no statement of the retry's first transaction fails.
pub book_again :
    (lib : Library) (deps deps' : Dependencies) (cmd : CreateCommand) (env env' envs' envs'' : Env)
    (meanwhile meanwhile' : Db → Db) (db : Db) (a : Appointment)
    → IsQuiet envs'
    → prepare lib deps' cmd ≡ prepare lib deps cmd
    → (book lib deps cmd env env' meanwhile db).0 ≡ ok a
    → book lib deps' cmd envs' envs'' meanwhile' (book lib deps cmd env env' meanwhile db).1
      ≡ (ok a, (book lib deps cmd env env' meanwhile db).1)
unfolding book
book_again lib deps deps' cmd env env' envs' envs'' meanwhile meanwhile' db a quiet same h =
    prepared_again lib deps deps' cmd (prepare lib deps cmd) (prepare lib deps' cmd) env env' envs'
      envs'' meanwhile meanwhile' db a quiet refl same h
