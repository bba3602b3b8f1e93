-- ===== src/Tenant/Settings.antt =====
-- services/tenant-service/internal/service/service.go, lines 252-346: the settings of a tenant.
-- `has_zone` says whether time.LoadLocation knows a name.
pub mod Valid
pub mod Stepping
use shearix_platform.Shared.{
  String, Bool, true, false, ◌&&◌, ◌||◌, not, Option, none, some, List, [], ◌∷◌, any, str_eq,
  Result, ok, err, ◌>>=◌, ◌>>◌, refuse_if, if◌then◌else◌, ℤ, pos, eqb_ℤ, ltb_ℤ,
}
use shearix_platform.Platform.Library.{Library}
use shearix_platform.Tenant.Domain.{Settings, UpdateSettingsInput}

-- ErrInvalidInput
pub data InputError : Type 0 where
  invalid_input : InputError

-- DefaultSettings
abbrev pub default_settings : Settings
default_settings = record {
  tenant_id = 0;
  business_timezone = "Europe/Istanbul";
  booking_interval_minutes = pos 15;
  reminder_offsets_minutes = some (pos 1440 ∷ pos 120 ∷ []);
  cancellation_policy = "allow_until_notice";
  cancellation_notice_minutes = pos 120;
  booking_horizon_days = pos 60;
  minimum_booking_notice_minutes = pos 60;
}

-- `low <= n <= high`, from the two refusals of the source.
unfoldable pub in_range : ℤ → ℤ → ℤ → Bool
in_range low high n = not (ltb_ℤ n low || ltb_ℤ high n)

-- The loop over the offsets, with those that were seen.
unfoldable pub offsets_from : List ℤ → List ℤ → Bool
unfolding in_range
offsets_from seen [] = true
offsets_from seen (o ∷ rest) =
    in_range (pos 1) (pos 10080) o && not (any (eqb_ℤ o) seen) && offsets_from (o ∷ seen) rest

-- A nil or an empty slice is refused.
unfoldable pub valid_offsets : Option (List ℤ) → Bool
unfolding offsets_from
valid_offsets none = false
valid_offsets (some []) = false
valid_offsets (some (o ∷ rest)) = offsets_from [] (o ∷ rest)

unfoldable pub is_policy : String → Bool
is_policy p = str_eq p "allow_until_notice" || str_eq p "no_cancellation"

-- A pointer that is nil.
abbrev pub is_unset : {A : Type 0} → Option A → Bool
is_unset none = true
is_unset (some a) = false

module _ (lib : Library) (has_zone : String → Bool) where
  -- The tests of validateSettings.
  unfoldable pub is_valid : Settings → Bool
  unfolding valid_offsets in_range is_policy
  is_valid s =
      not (str_eq s.business_timezone "")
      && not (str_eq s.business_timezone "Local")
      && has_zone s.business_timezone
      && in_range (pos 1) (pos 120) s.booking_interval_minutes
      && valid_offsets s.reminder_offsets_minutes
      && is_policy s.cancellation_policy
      && in_range (pos 0) (pos 10080) s.cancellation_notice_minutes
      && in_range (pos 1) (pos 365) s.booking_horizon_days
      && in_range (pos 0) (pos 10080) s.minimum_booking_notice_minutes

  -- validateSettings
  unfoldable pub validate_settings : Settings → Result InputError Settings
  unfolding is_valid
  validate_settings s =
      let t = record s { business_timezone = lib.trim_space s.business_timezone } in
      if is_valid t then ok t else err invalid_input

  -- The settings with the default in each place that is zero, empty or nil.
  unfoldable pub with_defaults : Settings → Settings
  with_defaults s = record s {
    business_timezone =
        if str_eq s.business_timezone ""
        then default_settings.business_timezone
        else s.business_timezone;
    booking_interval_minutes =
        if eqb_ℤ s.booking_interval_minutes (pos 0)
        then default_settings.booking_interval_minutes
        else s.booking_interval_minutes;
    reminder_offsets_minutes = elim s.reminder_offsets_minutes [
      | none ↦ default_settings.reminder_offsets_minutes
      | some offsets ↦ some offsets
    ];
    cancellation_policy =
        if str_eq s.cancellation_policy ""
        then default_settings.cancellation_policy
        else s.cancellation_policy;
    cancellation_notice_minutes =
        if eqb_ℤ s.cancellation_notice_minutes (pos 0)
        then default_settings.cancellation_notice_minutes
        else s.cancellation_notice_minutes;
    booking_horizon_days =
        if eqb_ℤ s.booking_horizon_days (pos 0)
        then default_settings.booking_horizon_days
        else s.booking_horizon_days;
    minimum_booking_notice_minutes =
        if eqb_ℤ s.minimum_booking_notice_minutes (pos 0)
        then default_settings.minimum_booking_notice_minutes
        else s.minimum_booking_notice_minutes;
  }

  -- normalizeSettings
  unfoldable pub normalize_settings : Settings → Result InputError Settings
  unfolding with_defaults validate_settings
  normalize_settings s = validate_settings (with_defaults s)

  -- No field of the input is set.
  unfoldable pub is_empty : UpdateSettingsInput → Bool
  is_empty input =
      is_unset input.timezone
      && is_unset input.booking_interval_minutes
      && is_unset input.reminder_offsets_minutes
      && is_unset input.cancellation_policy
      && is_unset input.booking_horizon_days
      && is_unset input.minimum_booking_notice_minutes

  -- The settings with the fields of the input that are set.
  unfoldable pub updated : Settings → UpdateSettingsInput → Settings
  updated current input = record current {
    business_timezone = elim input.timezone [
      | none ↦ current.business_timezone
      | some t ↦ lib.trim_space t
    ];
    booking_interval_minutes = elim input.booking_interval_minutes [
      | none ↦ current.booking_interval_minutes
      | some n ↦ n
    ];
    reminder_offsets_minutes = elim input.reminder_offsets_minutes [
      | none ↦ current.reminder_offsets_minutes
      | some [] ↦ none
      | some (o ∷ rest) ↦ some (o ∷ rest)
    ];
    cancellation_policy = elim input.cancellation_policy [
      | none ↦ current.cancellation_policy
      | some p ↦ lib.trim_space p
    ];
    booking_horizon_days = elim input.booking_horizon_days [
      | none ↦ current.booking_horizon_days
      | some n ↦ n
    ];
    minimum_booking_notice_minutes = elim input.minimum_booking_notice_minutes [
      | none ↦ current.minimum_booking_notice_minutes
      | some n ↦ n
    ];
  }

  -- mergeSettings
  unfoldable pub merge_settings : Settings → UpdateSettingsInput → Result InputError Settings
  unfolding is_empty updated validate_settings
  merge_settings current input =
      if is_empty input then err invalid_input else validate_settings (updated current input)
