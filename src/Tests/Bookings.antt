-- ===== src/Tests/Bookings.antt =====
-- Bookings of one tenant and one barber: two that follow one another, a retry, and a life cycle.
use shearix_platform.Shared.{
  ℕ, ◌+◌, ◌-◌, String, any, all, first, ◌≡◌, refl, ◌⊎◌, true, false, none, some, [], ◌∷◌, ok, err,
  pos, ◌≤ℤ◌, here, there, arith,
}
use shearix_platform.Platform.Ids.{Uuid}
use shearix_platform.Appointment.Domain.{CreateInput}
use shearix_platform.Appointment.Store.{Row, Db, empty, Env, sql_conflict, idempotency_conflict}
use shearix_platform.Appointment.Store.Constraints.{
  is_status, is_active, row_checks, excludes, key_check, fingerprint_check, is_key_row, is_row,
}
use shearix_platform.Appointment.Repository.{Booking, create, find_row, scan, new_row}
use shearix_platform.Appointment.Repository.Idempotent.{create_again, create_reused_key}
use shearix_platform.Appointment.Lifecycle.{transition, reschedule, moved}
use shearix_platform.Appointment.Lifecycle.Outcome.{transition-ok, reschedule-ok, Updated, IsMoved}
use shearix_platform.Appointment.Lifecycle.States.{final_row_kept}
use shearix_platform.Appointment.Lifecycle.Edges.{Edge, Announced}
use shearix_platform.Appointment.Lifecycle.Refined.{state_of, Moves, Step-Moves}
use shearix_platform.Appointment.Consistent.Booking.{
  Reached, fresh, after, creates, transitions_to, no_double_booking,
}

abbrev quiet_env : Uuid → Env
quiet_env n = record {
  fails = λ s. false;
  committed_unheard = false;
  kept_time = λ t. t;
  now = pos 500;
  new_appointment_id = n;
  new_outbox_id = n;
}

abbrev input_at : ℕ → CreateInput
input_at start = record {
  branch_id = 2;
  barber_id = 3;
  service_id = 4;
  customer_name = "Ada";
  customer_contact = "ada@example.com";
  start_at = pos start;
  customer_id = none;
}

abbrev fingerprint_a : String
fingerprint_a = "0123456789abcdef0123456789abcdef0123456789abcdef0123456789abcdef"

abbrev fingerprint_b : String
fingerprint_b = "1123456789abcdef0123456789abcdef0123456789abcdef0123456789abcdef"

abbrev booking_at : ℕ → String → String → Booking
booking_at start key fingerprint = record {
  input = input_at start;
  end_at = pos (start + 20);
  occupied_start_at = pos (start - 5);
  occupied_end_at = pos (start + 25);
  principal_scope = "guest:x";
  operation = "create_appointment";
  key = key;
  fingerprint = fingerprint;
}

abbrev first_booking : Booking
first_booking = booking_at 1000 "k1" fingerprint_a

abbrev db1 : Db
db1 = (create (quiet_env 51) 1 first_booking empty).1

abbrev db2 : Db
db2 = (create (quiet_env 52) 1 (booking_at 1030 "k2" fingerprint_b) db1).1

abbrev row1 : Row
row1 = new_row (quiet_env 51) 1 first_booking

abbrev row2 : Row
row2 = new_row (quiet_env 52) 1 (booking_at 1030 "k2" fingerprint_b)

first_accepted : (create (quiet_env 51) 1 first_booking empty).0 ≡ ok (scan row1)
unfolding create row_checks excludes key_check fingerprint_check is_key_row is_row is_status any all
    first
first_accepted = refl

two_rows : db2.appointments ≡ row2 ∷ row1 ∷ []
unfolding create row_checks excludes key_check fingerprint_check is_key_row is_row is_status any all
    first
two_rows = refl

-- A booking that would meet the first one is refused.
third_refused :
    (create (quiet_env 53) 1 (booking_at 1010 "" fingerprint_b) db2).0 ≡ err sql_conflict
unfolding create row_checks excludes key_check fingerprint_check is_key_row is_row is_status any all
    first
third_refused = refl

db2-Reached : Reached db2
db2-Reached =
    after (after fresh (creates (quiet_env 51) 1 first_booking))
      (creates (quiet_env 52) 1 (booking_at 1030 "k2" fingerprint_b))

no_double_booking_example : (pos 1055 ≤ℤ pos 995) ⊎ (pos 1025 ≤ℤ pos 1025)
unfolding is_active
no_double_booking_example =
    no_double_booking row2 row1 db2-Reached (rw two_rows (here refl))
      (rw two_rows (there (here refl))) (λ e. absurd (omega arith)) refl refl refl refl

create_again_example : create (quiet_env 60) 1 first_booking db1 ≡ (ok (scan row1), db1)
create_again_example =
    create_again (quiet_env 51) (quiet_env 60) 1 first_booking empty (scan row1) (λ s. refl) refl
      first_accepted

create_reused_key_example :
    create (quiet_env 60) 1 (booking_at 2000 "k1" fingerprint_b) db1
    ≡ (err idempotency_conflict, db1)
create_reused_key_example =
    create_reused_key (quiet_env 51) (quiet_env 60) 1 first_booking
      (booking_at 2000 "k1" fingerprint_b) empty (scan row1) (λ s. refl) refl first_accepted refl
      refl refl refl

abbrev cancelled_row : Row
cancelled_row = record row1 { status = "cancelled" }

abbrev db3 : Db
db3 = (transition (quiet_env 61) 1 51 "cancelled" db2).1

cancelled : (transition (quiet_env 61) 1 51 "cancelled" db2).0 ≡ ok (scan cancelled_row)
unfolding create transition row_checks excludes key_check fingerprint_check is_key_row is_row
    is_status any all first
cancelled = refl

cancelled_found : find_row 1 51 db3.appointments ≡ some cancelled_row
unfolding create transition row_checks excludes key_check fingerprint_check is_key_row is_row
    is_status any all first
cancelled_found = refl

transition-ok_example :
    (old : Row) × (kind : String) × (outbox_type : String) × Edge old.status "cancelled"
    × Announced "cancelled" kind outbox_type
    × (scan cancelled_row ≡ scan (record old { status = "cancelled" }))
    × Updated 1 51 old (record old { status = "cancelled" }) kind outbox_type db2 db3
transition-ok_example =
    transition-ok (quiet_env 61) 1 51 "cancelled" db2 (scan cancelled_row) cancelled

final_row_kept_example :
    find_row 1 51 (transition (quiet_env 62) 1 51 "confirmed" db3).1.appointments
    ≡ some cancelled_row
unfolding is_active
final_row_kept_example =
    final_row_kept 1 51 cancelled_row (transitions_to (quiet_env 62) 1 51 "confirmed")
      cancelled_found refl

Step-Moves_example : Moves (state_of 1 51 db2.appointments) (state_of 1 51 db3.appointments)
Step-Moves_example = Step-Moves 1 51 (transitions_to (quiet_env 61) 1 51 "cancelled")

abbrev moved_row : Row
moved_row = moved (quiet_env 63) row1 (pos 3000) (pos 3020) (pos 2995) (pos 3025)

rescheduled :
    (reschedule (quiet_env 63) 1 51 (pos 3000) (pos 3020) (pos 2995) (pos 3025) db2).0
    ≡ ok (scan moved_row)
unfolding create reschedule row_checks excludes key_check fingerprint_check is_key_row is_row
    is_status any all first
rescheduled = refl

reschedule-ok_example :
    (old : Row) × (row : Row) × (is_active old.status ≡ true)
    × IsMoved old row
    × (row.start_at ≡ pos 3000)
    × (row.end_at ≡ pos 3020)
    × (row.occupied_start_at ≡ pos 2995)
    × (row.occupied_end_at ≡ pos 3025)
    × (scan moved_row ≡ scan row)
    × Updated 1 51 old row "AppointmentRescheduled" "appointment.rescheduled" db2
        (reschedule (quiet_env 63) 1 51 (pos 3000) (pos 3020) (pos 2995) (pos 3025) db2).1
reschedule-ok_example =
    reschedule-ok (quiet_env 63) 1 51 (pos 3000) (pos 3020) (pos 2995) (pos 3025) db2
      (scan moved_row) rescheduled
