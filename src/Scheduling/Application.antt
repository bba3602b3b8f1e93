-- ===== src/Scheduling/Application.antt =====
-- services/scheduling-service/internal/application/application.go: the schedule of a barber, who may
-- see and change it, and the slots of a day. The repository is an interface over a state `S`.
pub mod Access
pub mod Hours
pub mod Days
use shearix_platform.Shared.{
  ℕ, String, Bool, true, false, ◌&&◌, ◌||◌, not, Option, none, some, List, [], ◌∷◌, ◌==◌, Result,
  ok, err, ◌>>=◌, ◌>>◌, refuse_if, or_error, mapped, str_eq, if◌then◌else◌, ℤ, pos, negsuc, ltb_ℤ,
  length, all,
}
use shearix_platform.GoTime.{Time, add, before, is_zero}
use shearix_platform.Platform.Ids.{Uuid, is_nil}
use shearix_platform.Platform.TenantContext.{Context}
use shearix_platform.Platform.SchedulingDeps.{Service, Barber, TenantSettings, DependencyError}
use shearix_platform.Scheduling.Domain.{
  WorkingHoursInput, DayHours, OverrideInput, Override, BlockedPeriodInput, BlockedPeriod, Schedule,
  Slot,
}
use shearix_platform.Scheduling.Wall.{valid_intervals}
use shearix_platform.Scheduling.Availability.{intervals_for_date, available}

-- repository.ErrNotFound, and any other error of the repository.
pub data RepoError : Type 0 where
  row_missing failed : RepoError

pub data AppError : Type 0 where
  invalid forbidden missing conflict unavailable occupancy_unavailable : AppError
  -- An unknown time zone, the error of time.LoadLocation.
  unknown_zone : AppError
  other : RepoError → AppError

pub record Principal : Type 0 where
  pub identity_id : Uuid
  pub role : String

-- What an operation of the repository answers, and the state it leaves.
abbrev pub Op : Type 0 → Type 0 → Type 0
Op S A = S → Result RepoError A × S

pub record Repository (S : Type 0) : Type 0 where
  pub replace_hours : Uuid → Uuid → WorkingHoursInput → Op S (Unit {0})
  pub hours : Uuid → Uuid → Op S WorkingHoursInput
  pub overrides : Uuid → Uuid → Op S (List Override)
  pub save_override : Uuid → Uuid → Uuid → OverrideInput → Op S Override
  pub delete_override : Uuid → Uuid → Uuid → Op S (Unit {0})
  pub blocks : Uuid → Uuid → Op S (List BlockedPeriod)
  pub save_block : Uuid → Uuid → BlockedPeriodInput → Op S BlockedPeriod
  pub delete_block : Uuid → Uuid → Uuid → Op S (Unit {0})
  pub day : Uuid → Uuid → Time → Op S (Override × List BlockedPeriod)

-- What the other services answer; the error of `occupied` says whether it is service.ErrOccupancyUnavailable.
pub record Dependencies : Type 0 where
  pub barber : Context → Uuid → Result DependencyError Barber
  pub service : Context → Uuid → Uuid → Result DependencyError Service
  pub settings : Context → Result DependencyError TenantSettings
  pub occupied : Context → Uuid → Time → Time → Result Bool (List BlockedPeriod)

-- Package time's calendar: whether time.Parse("2006-01-02", text) succeeds, the midnight of a date in
-- a named zone (`none`: no such zone), its weekday, the midnight of the day after,
-- and what time.Date gives for the year, month and day of a time in a zone.
pub record Calendar : Type 0 where
  pub is_date : String → Bool
  pub midnight : String → Time → Option Time
  pub weekday : String → Time → ℤ
  pub next_midnight : String → Time → Time
  pub day_start : String → Time → Time

-- The identity of the barber is that of the principal.
unfoldable pub is_self : Principal → Result DependencyError Barber → Bool
is_self p (err e) = false
is_self p (ok b) = elim b.identity_id [ none ↦ false | some i ↦ i == p.identity_id ]

-- authorize
unfoldable pub authorize :
    Dependencies → Context → Principal → Uuid → Bool → Result AppError (Unit {0})
unfolding is_self
authorize deps t p barber write =
    if str_eq p.role "OWNER" || str_eq p.role "MANAGER"
    then ok tt
    else if str_eq p.role "RECEPTIONIST"
    then refuse_if write forbidden
    else if str_eq p.role "BARBER"
    then refuse_if (not (is_self p (deps.barber t barber))) forbidden
    else err forbidden

unfoldable pub valid_day : DayHours → Bool
valid_day d =
    not (ltb_ℤ d.weekday (pos 0)) && not (ltb_ℤ (pos 6) d.weekday) && valid_intervals d.intervals

-- validHours
unfoldable pub valid_hours : WorkingHoursInput → Bool
unfolding valid_day
valid_hours days = all valid_day days

-- validOverride
unfoldable pub valid_override : Calendar → OverrideInput → Bool
valid_override cal input =
    cal.is_date input.date
    && (if str_eq input.kind "custom_hours"
        then not (length input.intervals == 0) && valid_intervals input.intervals
        else (str_eq input.kind "unavailable" || str_eq input.kind "vacation")
          && length input.intervals == 0)

-- mapRepo, for an error
unfoldable pub map_repo : RepoError → AppError
map_repo row_missing = missing
map_repo failed = other failed

-- The error of SaveOverride
unfoldable pub save_error : RepoError → AppError
save_error row_missing = missing
save_error failed = conflict

-- A call of the repository after the checks, with its error in the application's terms.
unfoldable pub guarded :
    {S A : Type 0}
    → Result AppError (Unit {0})
    → (RepoError → AppError)
    → Op S A
    → S
    → Result AppError A × S
guarded (err e) f op s = (err e, s)
guarded (ok _) f op s = let r = op s in (mapped f r.0, r.1)

unfoldable pub go_on :
    {S A B : Type 0}
    → (A → S → Result AppError B × S)
    → Result RepoError A
    → S
    → Result AppError B × S
go_on next (err e) s = (err (other e), s)
go_on next (ok a) s = next a s

-- A call whose error ends the operation.
unfoldable pub and_then :
    {S A B : Type 0} → Op S A → (A → S → Result AppError B × S) → S → Result AppError B × S
unfolding go_on
and_then op next s = let (found, s') = op s in go_on next found s'

module _ {S : Type 0} (repo : Repository S) (deps : Dependencies) (cal : Calendar) (t : Context)
    (p : Principal) (barber : Uuid) where
  -- Schedule
  unfoldable pub schedule : S → Result AppError Schedule × S
  unfolding authorize and_then
  schedule s = elim (authorize deps t p barber false) [
    | err e ↦ (err e, s)
    | ok _ ↦
        and_then (repo.hours t.tenant_id barber)
          (λ hours. and_then (repo.overrides t.tenant_id barber) (λ overrides.
            and_then (repo.blocks t.tenant_id barber) (λ blocks s'. (
              ok (record {
                working_hours = hours;
                overrides = overrides;
                blocked_periods = blocks;
              }),
              s',
            ))))
          s
  ]

  -- ReplaceHours
  unfoldable pub replace_hours : WorkingHoursInput → S → Result AppError (Unit {0}) × S
  unfolding guarded authorize valid_hours
  replace_hours input =
      guarded (do authorize deps t p barber true; refuse_if (not (valid_hours input)) invalid)
        (λ e. conflict) (repo.replace_hours t.tenant_id barber input)

  -- Overrides
  unfoldable pub list_overrides : S → Result AppError (List Override) × S
  unfolding guarded authorize
  list_overrides =
      guarded (authorize deps t p barber false) other (repo.overrides t.tenant_id barber)

  -- SaveOverride
  unfoldable pub save_override : Uuid → OverrideInput → S → Result AppError Override × S
  unfolding guarded authorize valid_override save_error
  save_override id input =
      guarded
        (do authorize deps t p barber true; refuse_if (not (valid_override cal input)) invalid)
        save_error (repo.save_override t.tenant_id barber id input)

  -- DeleteOverride
  unfoldable pub delete_override : Uuid → S → Result AppError (Unit {0}) × S
  unfolding guarded authorize map_repo
  delete_override id =
      guarded (authorize deps t p barber true) map_repo (repo.delete_override t.tenant_id barber id)

  -- Blocks
  unfoldable pub list_blocks : S → Result AppError (List BlockedPeriod) × S
  unfolding guarded authorize
  list_blocks = guarded (authorize deps t p barber false) other (repo.blocks t.tenant_id barber)

  -- SaveBlock
  unfoldable pub save_block : BlockedPeriodInput → S → Result AppError BlockedPeriod × S
  unfolding guarded authorize
  save_block input =
      guarded
        (do
          authorize deps t p barber true
          refuse_if (not (before input.start_at input.end_at)) invalid)
        (λ e. conflict) (repo.save_block t.tenant_id barber input)

  -- DeleteBlock
  unfoldable pub delete_block : Uuid → S → Result AppError (Unit {0}) × S
  unfolding guarded authorize map_repo
  delete_block id =
      guarded (authorize deps t p barber true) map_repo (repo.delete_block t.tenant_id barber id)

pub record AvailabilityQuery : Type 0 where
  pub tenant : Context
  pub principal : Option Principal
  pub barber_id : Uuid
  pub service_id : Uuid
  pub date : Time

-- What Availability learns before it reads the tables.
pub record Asked : Type 0 where
  pub service : Service
  pub settings : TenantSettings
  pub local_date : Time

unfoldable pub is_reader : Option Principal → Bool
is_reader none = true
is_reader (some p) =
    str_eq p.role "OWNER"
    || str_eq p.role "MANAGER"
    || str_eq p.role "BARBER"
    || str_eq p.role "RECEPTIONIST"

unfoldable pub date_in_zone : Calendar → String → Time → Result AppError Time
date_in_zone cal zone date = elim (cal.midnight zone date) [
  | none ↦ err unknown_zone
  | some m ↦ ok m
]

-- time.Hour times 24
abbrev pub day_length : ℤ
day_length = pos 86400000000000

unfoldable pub occupancy_error : Bool → AppError
occupancy_error known = if known then occupancy_unavailable else unavailable

-- The step between two slots.
unfoldable pub step_of : TenantSettings → ℤ → ℤ
step_of settings fallback =
    if ltb_ℤ settings.booking_interval_minutes (pos 1)
    then fallback
    else settings.booking_interval_minutes

module _ (deps : Dependencies) (cal : Calendar) (q : AvailabilityQuery) where
  unfoldable pub ask : Result AppError Asked
  unfolding is_reader date_in_zone
  ask = do
    refuse_if (not (is_reader q.principal)) forbidden
    refuse_if (is_nil q.barber_id || is_nil q.service_id || is_zero q.date) invalid
    _ ← or_error missing (deps.barber q.tenant q.barber_id)
    service ← or_error missing (deps.service q.tenant q.barber_id q.service_id)
    settings ← or_error unavailable (deps.settings q.tenant)
    local_date ← date_in_zone cal settings.timezone q.date
    ok (record { service = service; settings = settings; local_date = local_date })

module _ (deps : Dependencies) (cal : Calendar) (fallback : ℤ) (now : Time)
    (q : AvailabilityQuery) where
  -- The slots of a day whose hours, override and blocked periods are known; `none` inside an answer
  -- means that the computation does not end.
  unfoldable pub slots_of_day :
      Asked
      → WorkingHoursInput
      → Override
      → List BlockedPeriod
      → Result AppError (Option (List Slot))
  unfolding occupancy_error step_of
  slots_of_day a hours over blocked = do
    occupied ← mapped occupancy_error (
        deps.occupied q.tenant q.barber_id (add a.local_date (negsuc 86399999999999))
          (add (cal.next_midnight a.settings.timezone a.local_date) day_length))
    ok (
        available
          (intervals_for_date hours over (cal.weekday a.settings.timezone a.local_date)
            (cal.day_start a.settings.timezone a.local_date))
          blocked occupied a.service.duration_minutes a.service.buffer_before_minutes
          a.service.buffer_after_minutes (step_of a.settings fallback) now)

module _ {S : Type 0} (repo : Repository S) (deps : Dependencies) (cal : Calendar) (fallback : ℤ)
    (now : Time) (q : AvailabilityQuery) where
  unfoldable pub answer_day : Result AppError Asked → S → Result AppError (Option (List Slot)) × S
  unfolding slots_of_day and_then
  answer_day (err e) s = (err e, s)
  answer_day (ok a) s =
      and_then (repo.hours q.tenant.tenant_id q.barber_id)
        (λ hours.
          and_then (repo.day q.tenant.tenant_id q.barber_id a.local_date)
            (λ d s'. (slots_of_day deps cal fallback now q a hours d.0 d.1, s')))
        s

  -- Availability
  unfoldable pub availability : S → Result AppError (Option (List Slot)) × S
  unfolding ask answer_day
  availability s = answer_day (ask deps cal q) s
