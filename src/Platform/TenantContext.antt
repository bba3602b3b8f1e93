-- ===== src/Platform/TenantContext.antt =====
-- platform/tenantctx/context.go: who a request is for. `parse` is uuid.Parse.
use shearix_platform.Shared.{String, not, ◌&&◌, Option, none, some, Result, ok, err, if◌then◌else◌}
use shearix_platform.Platform.Ids.{Uuid}
use text.Mathlib.Text.{◌==◌}

pub record Context : Type 0 where
  pub tenant_id : Uuid
  pub app_type : String
  pub request_id : String

pub data ContextError : Type 0 where
  invalid_tenant_id invalid_app_type : ContextError

-- New
unfoldable pub new : (String → Option Uuid) → String → String → String → Result ContextError Context
new parse tenant_id app_type request_id = elim (parse tenant_id) [
  | none ↦ err invalid_tenant_id
  | some id ↦
      if not (app_type == "booking") && not (app_type == "admin")
      then err invalid_app_type
      else ok (record { tenant_id = id; app_type = app_type; request_id = request_id })
]
