-- ===== src/Appointment.antt =====
-- services/appointment-service: bookings, their life cycle, idempotent creation and the outbox.
pub mod Domain
pub mod Store
pub mod Repository
pub mod Lifecycle
pub mod Queries
pub mod Consistent
pub mod Application
pub mod Outbox
