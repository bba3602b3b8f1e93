-- ===== src/Scheduling.antt =====
-- services/scheduling-service: opening hours, overrides and blocked periods of a barber, and the
-- slots that a customer can book.
pub mod Domain
pub mod Wall
pub mod Availability
pub mod Application
