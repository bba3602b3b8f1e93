-- ===== src/Tenant/Settings/Stepping.antt =====
-- The booking interval of stored settings as the step between two slots.
use shearix_platform.Shared.{
  ℕ, ◌*◌, ◌≤◌, ◌<◌, ◌≡◌, ◌≢◌, refl, ◌∙◌, ap, none, ℤ, pos, negsuc, ◌≤ℤ◌, ok, arith,
}
use shearix_platform.GoTime.{Time, minutes}
use shearix_platform.GoTime.Bounds.{minutes-eq}
use shearix_platform.Platform.SchedulingDeps.{TenantSettings}
use shearix_platform.Scheduling.Application.{
  Repository, Dependencies, Calendar, AvailabilityQuery, Asked, ask, step_of, availability,
}
use shearix_platform.Scheduling.Application.Days.{availability-ends}
use shearix_platform.Tenant.Domain.{Settings}
use shearix_platform.Tenant.Settings.Valid.{IsStorable}

positive : (n : ℤ) → pos 1 ≤ℤ n → n ≤ℤ pos 120 → (m : ℕ) × (n ≡ pos m) × (0 < m) × (m ≤ 120)
positive (pos m) h k = (m, refl, omega arith, omega arith)
positive (negsuc m) h k = absurd (omega arith)

step_kept :
    (s : TenantSettings) (fallback : ℤ) (m : ℕ)
    → s.booking_interval_minutes ≡ pos m
    → 0 < m
    → step_of s fallback ≡ pos m
unfolding step_of
step_kept s fallback m e h = rw e (ground arith)

-- If the scheduling service reads an interval that the tenant service has stored, Availability always
-- ends.
pub stored_interval-ends :
    {S : Type 0} (repo : Repository S) (deps : Dependencies) (cal : Calendar) (fallback : ℤ)
    (now : Time) (q : AvailabilityQuery) (store : S) (a : Asked) (s : Settings)
    → ask deps cal q ≡ ok a
    → IsStorable s
    → a.settings.booking_interval_minutes ≡ s.booking_interval_minutes
    → (availability repo deps cal fallback now q store).0 ≢ ok none
stored_interval-ends repo deps cal fallback now q store a s asked storable same =
    let (m, e, more, less) =
      positive s.booking_interval_minutes storable.interval_from storable.interval_to in
    availability-ends repo deps cal fallback now q store a (m * 60000000000) asked
      (ap minutes (step_kept a.settings fallback m (same ∙ e) more) ∙ minutes-eq m (omega arith))
      (omega arith)
