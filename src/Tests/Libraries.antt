-- ===== src/Tests/Libraries.antt =====
-- A library and the other services as a test sees them.
use shearix_platform.Shared.{String, none, some, ok, pos}
use shearix_platform.Platform.Library.{Library}
use shearix_platform.Platform.TenantContext.{Context}
use shearix_platform.Platform.SchedulingDeps.{Service, TenantSettings}
use shearix_platform.Appointment.Application.{Dependencies, Principal}

abbrev pub hash : String
hash = "0123456789abcdef0123456789abcdef0123456789abcdef0123456789abcdef"

-- Texts are already trimmed and in lower case; every digest is the same.
abbrev pub plain_library : Library
plain_library = record {
  trim_space = λ s. s;
  to_lower = λ s. s;
  parse_address = λ s. some s;
  sha256_hex = λ s. hash;
  uuid_text = λ n. "u";
  parse_uuid = λ s. some 1;
  rfc3339_nano = λ t. "t";
  marshal_texts = λ ts. "j";
}

abbrev pub service : Service
service = record {
  duration_minutes = pos 20;
  buffer_before_minutes = pos 5;
  buffer_after_minutes = pos 5;
}

abbrev pub settings : TenantSettings
settings = record {
  timezone = "UTC";
  booking_interval_minutes = pos 15;
  cancellation_policy = "notice";
  cancellation_notice_minutes = pos 60;
}

abbrev pub willing : Dependencies
willing = record {
  branch_barber = λ c b d. ok tt;
  barber = λ c b. ok tt;
  service = λ c b s. ok service;
  settings = λ c. ok settings;
  available = λ c i t. ok tt;
  customer = λ c i. ok (record { name = "Ada"; email = "ada@example.com" });
}

abbrev pub tenant : Context
tenant = record { tenant_id = 1; app_type = "booking"; request_id = "r" }

abbrev pub customer_9 : Principal
customer_9 = record { kind = "customer"; identity_id = 0; customer_id = some 9; role = "" }

abbrev pub owner : Principal
owner = record { kind = "admin"; identity_id = 8; customer_id = none; role = "OWNER" }
