-- ===== src/Tests/Tenancies.antt =====
-- A tenant whose settings and domain are kept in one store, and that changes its interval.
use shearix_platform.Shared.{
  ℕ, String, Bool, true, false, ◌≡◌, ◌≢◌, refl, none, some, List, [], ◌∷◌, any, all, codes,
  byte_count, ok, err, ℤ, pos, arith, inr,
}
use shearix_platform.Scheduling.Application.{ask, availability}
use shearix_platform.Tenant.Domain.{Settings, UpdateSettingsInput, TenantDomain, Tenant}
use shearix_platform.Tenant.Settings.{
  offsets_from, valid_offsets, in_range, is_policy, is_valid, validate_settings, merge_settings,
  is_empty, updated,
}
use shearix_platform.Tenant.Settings.Valid.{IsStorable, merge_settings-ok}
use shearix_platform.Tenant.Settings.Stepping.{stored_interval-ends}
use shearix_platform.Tenant.Hostname.{
  bytes, is_text, without_last_dot, split, is_banned, is_label_char, starts_with_dash, ends_in_dash,
  is_label, ends_in_localhost, is_hostname, normalize_hostname,
}
use shearix_platform.Tenant.Hostname.Labels.{IsHostname, normalize_hostname-ok}
use shearix_platform.Tenant.Service.{Repository, Setup, not_found, update_settings}
use shearix_platform.Tests.Libraries.{plain_library}
use shearix_platform.Tests.Schedules.{repo, deps, calendar, query, monday, asked}

abbrev stored : Settings
stored = record {
  tenant_id = 1;
  business_timezone = "UTC";
  booking_interval_minutes = pos 15;
  reminder_offsets_minutes = some (pos 120 ∷ []);
  cancellation_policy = "no_cancellation";
  cancellation_notice_minutes = pos 60;
  booking_horizon_days = pos 60;
  minimum_booking_notice_minutes = pos 60;
}

abbrev change : UpdateSettingsInput
change = record {
  timezone = none;
  booking_interval_minutes = some (pos 30);
  reminder_offsets_minutes = some (pos 60 ∷ pos 30 ∷ []);
  cancellation_policy = none;
  booking_horizon_days = none;
  minimum_booking_notice_minutes = none;
}

abbrev changed : Settings
changed = record stored {
  booking_interval_minutes = pos 30;
  reminder_offsets_minutes = some (pos 60 ∷ pos 30 ∷ []);
}

abbrev any_zone : String → Bool
any_zone zone = true

merged_change : merge_settings plain_library any_zone stored change ≡ ok changed
unfolding merge_settings validate_settings is_valid valid_offsets offsets_from in_range is_policy
    is_empty updated any
merged_change = refl

merge_settings-ok_example : IsStorable changed × (◌≡◌ {A = ℕ} 1 1) × (◌≡◌ {A = ℤ} (pos 60) (pos 60))
merge_settings-ok_example =
    merge_settings-ok plain_library any_zone stored change changed merged_change

-- The settings of the schedule's test, with their interval of 15 minutes.
stored-IsStorable : IsStorable stored
stored-IsStorable = record {
  named_zone = λ e. absurd (cc);
  not_local = λ e. absurd (cc);
  interval_from = omega arith;
  interval_to = omega arith;
  first_offset = pos 120;
  more_offsets = [];
  has_offsets = refl;
  offsets = ((omega arith, omega arith), tt);
  distinct = ((λ m. elim m [ ]), tt);
  policy = inr refl;
  notice_from = omega arith;
  notice_to = omega arith;
  horizon_from = omega arith;
  horizon_to = omega arith;
  minimum_from = omega arith;
  minimum_to = omega arith;
}

stored_interval-ends_example :
    (availability repo deps calendar (pos 0) (pos 0) query monday).0 ≢ ok none
unfolding ask
stored_interval-ends_example =
    stored_interval-ends repo deps calendar (pos 0) (pos 0) query monday asked stored refl
      stored-IsStorable refl

abbrev no_address : List ℕ → Bool
no_address h = false

shop_name :
    normalize_hostname plain_library no_address false "my-shop.example.com."
    ≡ ok (codes "my-shop.example.com")
unfolding normalize_hostname is_hostname bytes is_text without_last_dot split is_banned
    is_label_char starts_with_dash ends_in_dash is_label ends_in_localhost all any byte_count
shop_name = refl

normalize_hostname-ok_example : IsHostname no_address (codes "my-shop.example.com")
normalize_hostname-ok_example =
    normalize_hostname-ok plain_library no_address false "my-shop.example.com."
      (codes "my-shop.example.com") shop_name

abbrev shop_domain : TenantDomain
shop_domain = record {
  id = 1;
  tenant_id = 1;
  hostname = "my-shop.example.com";
  domain_type = "booking";
  verified = true;
  active = false;
  verification_state = "verified";
  verification_record = "r";
  verification_token = "";
  verification_value = "";
  verification_requested_at = none;
  last_verification_attempt_at = none;
  verified_at = none;
  activated_at = none;
  deactivated_at = none;
  created_at = pos 0;
}

abbrev shop : Settings → Tenant
shop s = record { id = 1; name = "Shop"; status = "active"; created_at = pos 0; settings = s }

abbrev tenants : Repository Settings
tenants = record {
  resolve_domain = λ h s. (ok (record { tenant_id = 1; app_type = "booking" }), s);
  settings = λ id s. (ok s, s);
  update_settings = λ id s' s. (ok s', s');
  create_tenant = λ n s' s. (ok (shop s'), s');
  tenant = λ id s. (ok (shop s), s);
  tenants = λ s. (ok (shop s ∷ []), s);
  set_tenant_status = λ id st a r s. (ok (shop s), s);
  platform_audit = λ id s. (ok [], s);
  create_domain = λ id h t v s. (ok shop_domain, s);
  domains = λ id s. (ok (shop_domain ∷ []), s);
  domain = λ t id s. (ok shop_domain, s);
  domain_for_verification = λ t id s. (ok (record { domain = shop_domain; token_hash = "h" }), s);
  mark_verification_succeeded = λ t id s. (ok shop_domain, s);
  mark_verification_failed = λ t id s. (err not_found, s);
  activate_domain = λ t id s. (ok (record shop_domain { active = true }), s);
  deactivate_domain = λ t id s. (ok shop_domain, s);
}

abbrev setup : Setup
setup = record {
  lib = plain_library;
  has_zone = any_zone;
  is_ip = no_address;
  lookup_txt = λ r. none;
  hash = λ s. s;
  allow_localhost = false;
}
