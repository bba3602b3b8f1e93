-- ===== src/Appointment/Application/Booking.antt =====
-- services/appointment-service/internal/application/application.go, lines 132-180: BookingService.
use shearix_platform.Shared.{
  String, not, Option, none, some, Result, ok, err, ◌>>=◌, ◌>>◌, refuse_if, or_error,
}
use shearix_platform.GoTime.{add, minutes, minus_minutes}
use shearix_platform.Platform.Library.{Library}
use shearix_platform.Platform.SchedulingDeps.{Service}
use shearix_platform.Appointment.Domain.{CreateInput, Appointment}
use shearix_platform.Appointment.Store.{Db, RepoError, Env}
use shearix_platform.Appointment.Repository.{Booking, replay, create}
use shearix_platform.Appointment.Application.{
  AppError, unauthorized, conflict, invalid_idempotency_key, Dependencies, CreateCommand,
  valid_idempotency_key, normalize_create, principal_scope, fingerprint, map_repository_error,
  answered,
}

-- A command as the repository gets it.
pub record Request : Type 0 where
  pub input : CreateInput
  pub scope : String
  pub print : String

module _ (lib : Library) (deps : Dependencies) (cmd : CreateCommand) where
  -- The input with the name and the contact that the customer service has for the customer.
  unfoldable pub with_snapshot : CreateInput → Result AppError CreateInput
  with_snapshot input = elim cmd.principal.customer_id [
    | none ↦ ok input
    | some customer ↦ do
      snapshot ← or_error unauthorized (deps.customer cmd.tenant customer)
      or_error unauthorized (
          normalize_create lib (record input {
            customer_id = some customer;
            customer_name = snapshot.name;
            customer_contact = lib.to_lower (lib.trim_space snapshot.email);
          }))
  ]

  -- What follows the test of the key, up to the fingerprint.
  unfoldable pub prepare_keyed : Result AppError Request
  unfolding with_snapshot
  prepare_keyed = do
    input ← normalize_create lib cmd.input
    input' ← with_snapshot input
    scope ← principal_scope lib cmd.principal input'.customer_contact
    ok (record {
      input = input';
      scope = scope;
      print = fingerprint lib cmd.tenant.tenant_id scope cmd.operation input';
    })

  -- The first part of Create, up to the fingerprint.
  unfoldable pub prepare : Result AppError Request
  unfolding prepare_keyed
  prepare = do
    refuse_if (not (valid_idempotency_key cmd.idempotency_key)) invalid_idempotency_key
    prepare_keyed

  -- The questions to the other services.
  unfoldable pub validate : CreateInput → Result AppError Service
  validate input = do
    or_error conflict (deps.branch_barber cmd.tenant input.branch_id input.barber_id)
    or_error conflict (deps.barber cmd.tenant input.barber_id)
    service ← or_error conflict (deps.service cmd.tenant input.barber_id input.service_id)
    or_error conflict (deps.available cmd.tenant input input.start_at)
    ok service

  -- The arguments of the repository's Create.
  unfoldable pub booking_of : Request → Service → Booking
  booking_of r service = record {
    input = r.input;
    end_at = add r.input.start_at (minutes service.duration_minutes);
    occupied_start_at = add r.input.start_at (minus_minutes service.buffer_before_minutes);
    occupied_end_at =
        add (add r.input.start_at (minutes service.duration_minutes))
          (minutes service.buffer_after_minutes);
    principal_scope = r.scope;
    operation = cmd.operation;
    key = cmd.idempotency_key;
    fingerprint = r.print;
  }

  -- The second transaction, if the other services agree.
  unfoldable pub book_validated :
      Env → Request → Result AppError Service → Db → Result AppError Appointment × Db
  unfolding booking_of
  book_validated env r (err e) db = (err e, db)
  book_validated env r (ok service) db =
      answered (create env cmd.tenant.tenant_id (booking_of r service) db)

  -- What Create does if there is nothing to replay.
  unfoldable pub book_new : Env → Request → Db → Result AppError Appointment × Db
  unfolding validate book_validated
  book_new env r db = book_validated env r (validate r.input) db

  -- What Create does with the answer of Replay; `meanwhile` is what other requests do to the tables
  -- before the second transaction starts.
  unfoldable pub after_replay :
      Env
      → (Db → Db)
      → Request
      → Result RepoError (Option Appointment)
      → Db
      → Result AppError Appointment × Db
  unfolding book_new
  after_replay env meanwhile r (err e) db = (err (map_repository_error e), db)
  after_replay env meanwhile r (ok (some a)) db = (ok a, db)
  after_replay env meanwhile r (ok none) db = book_new env r (meanwhile db)

  unfoldable pub book_request :
      Env → Env → (Db → Db) → Request → Db → Result AppError Appointment × Db
  unfolding after_replay
  book_request env env' meanwhile r db =
      let (found, db') =
        replay env cmd.tenant.tenant_id r.scope cmd.operation cmd.idempotency_key r.print db in
      after_replay env' meanwhile r found db'

  unfoldable pub book_prepared :
      Env → Env → (Db → Db) → Result AppError Request → Db → Result AppError Appointment × Db
  unfolding book_request
  book_prepared env env' meanwhile (err e) db = (err e, db)
  book_prepared env env' meanwhile (ok r) db = book_request env env' meanwhile r db

  -- Create; `env` is what the transaction of Replay meets, and `env'` that of the booking.
  unfoldable pub book : Env → Env → (Db → Db) → Db → Result AppError Appointment × Db
  unfolding prepare book_prepared
  book env env' meanwhile db = book_prepared env env' meanwhile prepare db
