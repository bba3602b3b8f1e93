-- ===== src/Tenant.antt =====
-- services/tenant-service: the settings of a tenant and its host names.
pub mod Domain
pub mod Settings
pub mod Hostname
pub mod Service
