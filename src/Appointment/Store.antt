-- ===== src/Appointment/Store.antt =====
-- services/appointment-service/migrations: the tables, their constraints, and platform/db/tenant.go:
-- a transaction, whose statements may fail: an error rolls it back, but a commit that fails may have
-- taken place.
pub mod Constraints
pub mod Keeps
use shearix_platform.Shared.{
  ℕ, String, Bool, Option, none, some, List, [], Result, ok, err, if◌then◌else◌,
}
use shearix_platform.GoTime.{Time}
use shearix_platform.Platform.Ids.{Uuid}
use shearix_platform.Appointment.Domain.{Payload}

-- public.appointments
pub record Row : Type 0 where
  pub tenant_id : Uuid
  pub id : Uuid
  pub branch_id : Uuid
  pub barber_id : Uuid
  pub service_id : Uuid
  pub customer_id : Option Uuid
  pub customer_name : String
  pub customer_contact : String
  pub start_at : Time
  pub end_at : Time
  pub occupied_start_at : Time
  pub occupied_end_at : Time
  pub status : String

-- public.idempotency_keys
pub record KeyRow : Type 0 where
  pub tenant_id : Uuid
  pub principal_scope : String
  pub operation : String
  pub key : String
  pub fingerprint : String
  pub appointment_id : Uuid
  pub created_at : Time

-- public.appointment_events
pub record EventRow : Type 0 where
  pub tenant_id : Uuid
  pub appointment_id : Uuid
  pub kind : String
  pub payload : Payload

-- public.outbox_events
pub record OutboxRow : Type 0 where
  pub id : Uuid
  pub tenant_id : Uuid
  pub aggregate_id : Uuid
  pub kind : String
  pub payload : Payload
  pub created_at : Time
  pub published_at : Option Time
  pub publishing_at : Option Time
  pub publish_attempts : ℕ
  pub failed_at : Option Time

-- A table is the list of its rows, the newest first.
pub record Db : Type 0 where
  pub appointments : List Row
  pub keys : List KeyRow
  pub events : List EventRow
  pub outbox : List OutboxRow

abbrev pub empty : Db
empty = record { appointments = []; keys = []; events = []; outbox = [] }

-- The errors of the repository; `sql_conflict` is a PostgreSQL error with the SQLSTATE 23P01 or
-- 23505, `no_rows` is pgx.ErrNoRows, and `database` any other failure.
pub data RepoError : Type 0 where
  not_found idempotency_conflict invalid_transition sql_conflict no_rows database : RepoError

-- The statements of the repository's transactions.
pub data Stmt : Type 0 where
  begin_tx lock_key find_key load_appointment insert_appointment insert_key insert_event : Stmt
  insert_outbox select_status update_status update_times commit_tx : Stmt

-- What one transaction meets: which statements fail (a lost connection, a timeout), whether a commit
-- whose answer was lost took place, the time, what pgx and a timestamptz column keep of a time
-- (microseconds), and the identifiers that gen_random_uuid() gives.
pub record Env : Type 0 where
  pub fails : Stmt → Bool
  pub committed_unheard : Bool
  pub kept_time : Time → Time
  pub now : Time
  pub new_appointment_id : Uuid
  pub new_outbox_id : Uuid

-- A part of a transaction: it has an answer and the tables that it leaves, or an error.
abbrev pub Tx : Type 0 → Type 0
Tx A = Db → Result RepoError (A × Db)

infixl 5 ◌>>=◌ ◌>>◌
abbrev pub ◌>>=◌ : {A B : Type 0} → Tx A → (A → Tx B) → Tx B
◌>>=◌ m f db = elim (m db) [ err e ↦ err e | ok (a, db') ↦ f a db' ]

abbrev pub ◌>>◌ : {B : Type 0} → Tx (Unit {0}) → Tx B → Tx B
m >> k = m >>= λ _. k

abbrev pub pure : {A : Type 0} → A → Tx A
pure a db = ok (a, db)

abbrev pub raise : {A : Type 0} → RepoError → Tx A
raise e db = err e

-- An early return with the error if the test passes.
abbrev pub raise_if : Bool → RepoError → Tx (Unit {0})
raise_if b e db = if b then err e else ok (tt, db)

-- A statement is sent: it may fail.
abbrev pub send : Env → Stmt → Tx (Unit {0})
send env s = raise_if (env.fails s) database

-- What a query finds in the tables.
abbrev pub read : {A : Type 0} → (Db → A) → Tx A
read f db = ok (f db, db)

-- An answer that must be there.
abbrev pub expect : {A : Type 0} → RepoError → Option A → Tx A
expect e none = raise e
expect e (some a) = pure a

-- The end of a transaction: without an answer of the body the deferred rollback leaves the tables as
-- they were; after an error of the commit the tables may be the new ones or the old ones.
unfoldable pub settle :
    {A : Type 0} → Env → Db → Result RepoError (A × Db) → Result RepoError A × Db
settle env db (err e) = (err e, db)
settle env db (ok (a, db')) =
    if env.fails commit_tx
    then (err database, if env.committed_unheard then db' else db)
    else (ok a, db')

-- WithTenantTx
unfoldable pub with_tenant_tx : {A : Type 0} → Env → Tx A → Db → Result RepoError A × Db
unfolding settle
with_tenant_tx env body db = settle env db ((do send env begin_tx; body) db)
