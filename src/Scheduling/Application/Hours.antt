-- ===== src/Scheduling/Application/Hours.antt =====
-- What a change of the schedule stores.
use shearix_platform.Shared.{
  Bool, true, false, not, ◌≡◌, refl, pos, ◌≤ℤ◌, [], ◌∷◌, Result, ok, err, ◌>>◌, refuse_if,
  mapped-ok, All, all, ltb_ℤ→le, arith,
}
use shearix_platform.Platform.Ids.{Uuid}
use shearix_platform.Platform.TenantContext.{Context}
use shearix_platform.Scheduling.Domain.{WorkingHoursInput, DayHours}
use shearix_platform.Scheduling.Wall.Ordered.{IsOrdered, valid_intervals_iff}
use shearix_platform.Scheduling.Application.{
  AppError, RepoError, invalid, conflict, Op, Principal, Repository, Dependencies, Calendar,
  authorize, valid_day, valid_hours, guarded, replace_hours,
}
use shearix_platform.Scheduling.Application.Access.{IsAuthorized, authorize-IsAuthorized}

-- A weekday from Sunday to Saturday, with intervals in order.
pub record IsDay (d : DayHours) : Type 0 where
  pub from_sunday : pos 0 ≤ℤ d.weekday
  pub to_saturday : d.weekday ≤ℤ pos 6
  pub in_order : IsOrdered d.intervals

valid_day-IsDay : (d : DayHours) → valid_day d ≡ true → IsDay d
unfolding valid_day
valid_day-IsDay d h = record {
  from_sunday = ltb_ℤ→le d.weekday (pos 0) (ground arith);
  to_saturday = ltb_ℤ→le (pos 6) d.weekday (ground arith);
  in_order = (valid_intervals_iff d.intervals).0 (ground arith);
}

valid_hours-All : (days : WorkingHoursInput) → valid_hours days ≡ true → All IsDay days
unfolding valid_hours all
valid_hours-All [] h = tt
valid_hours-All (d ∷ rest) h =
    (valid_day-IsDay d (ground arith), valid_hours-All rest (ground arith))

pub guarded-ok :
    {S A : Type 0} (g : Result AppError (Unit {0})) (f : RepoError → AppError) (op : Op S A) (s : S)
    (a : A)
    → (guarded g f op s).0 ≡ ok a
    → ((u : Unit {0}) × (g ≡ ok u)) × ((op s).0 ≡ ok a) × ((guarded g f op s).1 ≡ (op s).1)
unfolding guarded
guarded-ok (err e) f op s a h = absurd (cc)
guarded-ok (ok u) f op s a h = ((u, refl), mapped-ok f (op s).0 h, refl)

pub two_checks :
    (r : Result AppError (Unit {0})) (b : Bool) (e : AppError) (u : Unit {0})
    → (r >> refuse_if b e) ≡ ok u
    → ((v : Unit {0}) × (r ≡ ok v)) × (b ≡ false)
two_checks (err x) b e u h = absurd (cc)
two_checks (ok v) true e u h = absurd (cc)
two_checks (ok v) false e u h = ((v, refl), refl)

-- A ReplaceHours that has an answer was asked by someone who may change the schedule, and the
-- repository stored hours whose weekdays are days of the week and whose intervals are in order.
pub replace_hours-ok :
    {S : Type 0} (repo : Repository S) (deps : Dependencies) (cal : Calendar) (t : Context)
    (p : Principal) (barber : Uuid) (input : WorkingHoursInput) (s : S) (u : Unit {0})
    → (replace_hours repo deps cal t p barber input s).0 ≡ ok u
    → IsAuthorized deps t p barber true
      × All IsDay input
      × ((repo.replace_hours t.tenant_id barber input s).0 ≡ ok u)
      × ((replace_hours repo deps cal t p barber input s).1
          ≡ (repo.replace_hours t.tenant_id barber input s).1)
unfolding replace_hours
replace_hours-ok repo deps cal t p barber input s u h =
    let ((v, checks), stored, left) =
      guarded-ok _ (λ e. conflict) (repo.replace_hours t.tenant_id barber input) s u h in
    let ((w, allowed), valid) =
      two_checks (authorize deps t p barber true) (not (valid_hours input)) invalid v checks in
    (
      authorize-IsAuthorized deps t p barber true allowed,
      valid_hours-All input (ground (arith, valid)),
      stored,
      left,
    )
