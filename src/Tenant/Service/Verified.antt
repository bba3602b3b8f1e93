-- ===== src/Tenant/Service/Verified.antt =====
-- The settings that an update stores.
use shearix_platform.Tenant.Domain.{Settings}
