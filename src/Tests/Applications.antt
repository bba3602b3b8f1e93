-- ===== src/Tests/Applications.antt =====
-- A customer's command: it is booked, retried when no other service helps any more, and cancelled.
use shearix_platform.Shared.{
  ℕ, String, ◌*◌, ◌≡◌, refl, ◌⊎◌, false, any, all, first, byte_length, none, ok, err, pos, ◌+ℤ◌,
  ◌-ℤ◌, ◌*ℤ◌,
}
use shearix_platform.GoTime.{minutes, minus_minutes, negate, wrap64}
use shearix_platform.Platform.SchedulingDeps.{unreachable}
use shearix_platform.Appointment.Domain.{Appointment}
use shearix_platform.Appointment.Store.{Row, Db, empty, Env}
use shearix_platform.Appointment.Store.Constraints.{
  is_status, is_active, row_checks, excludes, key_check, fingerprint_check, is_key_row, is_row,
}
use shearix_platform.Appointment.Repository.{scan, create, replay}
use shearix_platform.Appointment.Lifecycle.{transition}
use shearix_platform.Appointment.Lifecycle.Edges.{Edge, Announced}
use shearix_platform.Appointment.Lifecycle.Outcome.{Updated}
use shearix_platform.Appointment.Queries.{get_for_customer}
use shearix_platform.Appointment.Application.{
  Dependencies, CreateCommand, valid_idempotency_key, normalize_create, principal_scope,
  fingerprint,
}
use shearix_platform.Appointment.Application.Booking.{prepare, book}
use shearix_platform.Appointment.Application.Changes.{change_status, cancel_customer}
use shearix_platform.Appointment.Application.Retry.{book_again}
use shearix_platform.Appointment.Application.Cancelling.{Cancelled, cancel_customer-ok}
use shearix_platform.Appointment.Application.Access.{IsManager, change_status-ok}
use shearix_platform.Tests.Libraries.{plain_library, willing, tenant, customer_9, owner}

abbrev quiet : ℕ → Env
quiet n = record {
  fails = λ s. false;
  committed_unheard = false;
  kept_time = λ t. t;
  now = pos 500;
  new_appointment_id = n;
  new_outbox_id = n;
}

abbrev command : CreateCommand
command = record {
  tenant = tenant;
  principal = customer_9;
  operation = "create_appointment";
  idempotency_key = "k1";
  input = record {
    branch_id = 2;
    barber_id = 3;
    service_id = 4;
    customer_name = "A";
    customer_contact = "a@example.com";
    start_at = pos (600 * 60000000000);
    customer_id = none;
  };
}

-- Every service but that of the customers is down.
abbrev down : Dependencies
down = record willing {
  branch_barber = λ c b d. err unreachable;
  barber = λ c b. err unreachable;
  service = λ c b s. err unreachable;
  available = λ c i t. err unreachable;
}

abbrev db1 : Db
db1 = (book plain_library willing command (quiet 50) (quiet 51) (λ db. db) empty).1

abbrev booked_appointment : Appointment
booked_appointment = record {
  id = 51;
  branch_id = 2;
  barber_id = 3;
  service_id = 4;
  customer_name = "Ada";
  customer_contact = "ada@example.com";
  start_at = pos (600 * 60000000000);
  end_at = pos (620 * 60000000000);
  occupied_start_at = pos (595 * 60000000000);
  occupied_end_at = pos (625 * 60000000000);
  status = "pending";
  can_cancel = false;
  cancellation_deadline = none;
}

book_first :
    (book plain_library willing command (quiet 50) (quiet 51) (λ db. db) empty).0
    ≡ ok booked_appointment
unfolding book prepare valid_idempotency_key byte_length normalize_create principal_scope
    fingerprint replay create any all first is_status is_active row_checks excludes key_check
    fingerprint_check is_key_row is_row minutes minus_minutes negate wrap64 ◌+ℤ◌ ◌-ℤ◌ ◌*ℤ◌
book_first = refl

book_again_example :
    book plain_library down command (quiet 60) (quiet 61) (λ db. db) db1
    ≡ (ok booked_appointment, db1)
unfolding prepare
book_again_example =
    book_again plain_library willing down command (quiet 50) (quiet 51) (quiet 60) (quiet 61)
      (λ db. db) (λ db. db) empty booked_appointment (λ s. refl) refl book_first

cancel_first :
    (cancel_customer willing
      (quiet 70)
      (quiet 71)
      (λ db. db)
      tenant
      9
      51
      (pos (500 * 60000000000))
      db1).0
    ≡ ok (record booked_appointment { status = "cancelled" })
unfolding cancel_customer get_for_customer transition book prepare valid_idempotency_key byte_length
    normalize_create principal_scope fingerprint replay create any all first is_status is_active
    row_checks excludes key_check fingerprint_check is_key_row is_row minutes minus_minutes negate
    wrap64 ◌+ℤ◌ ◌-ℤ◌ ◌*ℤ◌
cancel_first = refl

cancel_customer-ok_example :
    Cancelled willing tenant 9 51
      (pos (500 * 60000000000))
      db1
      (get_for_customer (quiet 70) 1 9 51 db1).1
      (cancel_customer willing
        (quiet 70)
        (quiet 71)
        (λ db. db)
        tenant
        9
        51
        (pos (500 * 60000000000))
        db1).1
      (record booked_appointment { status = "cancelled" })
cancel_customer-ok_example =
    cancel_customer-ok willing (quiet 70) (quiet 71) (λ db. db) tenant 9 51
      (pos (500 * 60000000000)) db1 (record booked_appointment { status = "cancelled" })
      cancel_first

confirm_first :
    (change_status (quiet 72) 1 owner 51 "confirmed" db1).0
    ≡ ok (record booked_appointment { status = "confirmed" })
unfolding change_status transition book prepare valid_idempotency_key byte_length normalize_create
    principal_scope fingerprint replay create any all first is_status is_active row_checks excludes
    key_check fingerprint_check is_key_row is_row minutes minus_minutes negate wrap64 ◌+ℤ◌ ◌-ℤ◌ ◌*ℤ◌
confirm_first = refl

change_status-ok_example :
    (IsManager owner ⊎ ((owner.kind ≡ "guest") × (◌≡◌ {A = String} "confirmed" "cancelled")))
    × ((old : Row) × (kind : String) × (outbox_type : String) × Edge old.status "confirmed"
        × Announced "confirmed" kind outbox_type
        × (record booked_appointment { status = "confirmed" }
            ≡ scan (record old { status = "confirmed" }))
        × Updated 1 51 old
            (record old { status = "confirmed" })
            kind
            outbox_type
            db1
            (change_status (quiet 72) 1 owner 51 "confirmed" db1).1)
change_status-ok_example =
    change_status-ok (quiet 72) 1 owner 51 "confirmed" db1
      (record booked_appointment { status = "confirmed" }) confirm_first
