-- ===== src/Tests/Outboxes.antt =====
-- An outbox with two messages, the first of which the broker refuses twenty times.
use shearix_platform.Shared.{ℕ, suc, zero, false, refl, none, List, [], ◌∷◌, pos, first}
use shearix_platform.Appointment.Store.{OutboxRow, Db, empty}
use shearix_platform.Appointment.Outbox.{is_open, event_of}
use shearix_platform.Appointment.Outbox.Bounded.{
  Step, claims, publishes, steps, refusals, never_marked, IsTried, steps-IsTried,
}

abbrev message : OutboxRow
message = record {
  id = 51;
  tenant_id = 1;
  aggregate_id = 51;
  kind = "appointment.created";
  payload = record {
    appointment_id = 51;
    branch_id = 2;
    barber_id = 3;
    service_id = 4;
    start_at = pos 10;
    end_at = pos 20;
    status = "pending";
  };
  created_at = pos 5;
  published_at = none;
  publishing_at = none;
  publish_attempts = 0;
  failed_at = none;
}

abbrev second : OutboxRow
second = record message { id = 52; created_at = pos 6 }

abbrev queue : Db
queue = record empty { outbox = message ∷ second ∷ [] }

abbrev refused : Step
refused =
    publishes (record { delivered = false; statement_fails = false; now = pos 90 })
      (event_of message)

-- Claims and refusals in turn.
abbrev tries : ℕ → List Step
tries zero = []
tries (suc n) = claims (pos 80) 50 ∷ refused ∷ tries n

message_IsTried : IsTried 51 0 queue
unfolding first is_open
message_IsTried = record { row = message; found = refl; tried = refl; alive = refl }

steps-IsTried_example : IsTried 51 20 (steps (tries 20) queue)
unfolding refusals never_marked
steps-IsTried_example = steps-IsTried 51 0 (tries 20) queue refl message_IsTried
