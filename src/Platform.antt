-- ===== src/Platform.antt =====
-- platform/: the code that the services share.
pub mod Ids
pub mod TenantContext
pub mod AdminAuth
pub mod Library
pub mod SchedulingDeps
pub mod Transactions
pub mod Email
