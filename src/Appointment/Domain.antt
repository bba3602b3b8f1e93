-- ===== src/Appointment/Domain.antt =====
-- services/appointment-service/internal/domain/domain.go
use shearix_platform.Shared.{String, Bool, Option}
use shearix_platform.GoTime.{Time}
use shearix_platform.Platform.Ids.{Uuid}

pub record CreateInput : Type 0 where
  pub branch_id : Uuid
  pub barber_id : Uuid
  pub service_id : Uuid
  pub customer_name : String
  pub customer_contact : String
  pub start_at : Time
  pub customer_id : Option Uuid

pub record Appointment : Type 0 where
  pub id : Uuid
  pub branch_id : Uuid
  pub barber_id : Uuid
  pub service_id : Uuid
  pub customer_name : String
  pub customer_contact : String
  pub start_at : Time
  pub end_at : Time
  pub occupied_start_at : Time
  pub occupied_end_at : Time
  pub status : String
  pub can_cancel : Bool
  pub cancellation_deadline : Option Time

-- The JSON object of an event: contact data is left out.
pub record Payload : Type 0 where
  pub appointment_id : Uuid
  pub branch_id : Uuid
  pub barber_id : Uuid
  pub service_id : Uuid
  pub start_at : Time
  pub end_at : Time
  pub status : String

pub record OutboxEvent : Type 0 where
  pub id : Uuid
  pub tenant_id : Uuid
  pub aggregate_id : Uuid
  pub kind : String
  pub payload : Payload
  pub occurred_at : Time
