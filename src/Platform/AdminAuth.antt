-- ===== src/Platform/AdminAuth.antt =====
-- platform/adminauth/adminauth.go, lines 104-117: what a tenant role may do.
use shearix_platform.Shared.{String, Bool, ◌||◌}
use text.Mathlib.Text.{◌==◌}

unfoldable pub can_manage_members : String → Bool
can_manage_members role = role == "OWNER"

unfoldable pub can_manage_tenant_settings : String → Bool
can_manage_tenant_settings role = role == "OWNER" || role == "MANAGER"

unfoldable pub can_write : String → Bool
can_write role = role == "OWNER" || role == "MANAGER"

unfoldable pub can_read : String → Bool
can_read role = role == "OWNER" || role == "MANAGER" || role == "BARBER" || role == "RECEPTIONIST"
