-- ===== src/Barber.antt =====
-- services/barber-service: branches, barbers and their identities.
pub mod Domain
pub mod Service
