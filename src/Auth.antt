-- ===== src/Auth.antt =====
-- services/auth-service: identities, memberships of tenants, credentials and sessions.
pub mod Domain
pub mod Store
pub mod Repository
pub mod Service
