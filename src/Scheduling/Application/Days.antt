-- ===== src/Scheduling/Application/Days.antt =====
-- What Availability answers.
use shearix_platform.Shared.{
  ℕ, ◌<◌, ◌≡◌, ◌≢◌, refl, sym, ◌∙◌, Option, none, some, ℤ, pos, negsuc, List, Result, ok, err,
  bind-ok, mapped, mapped-ok, arith,
}
use shearix_platform.GoTime.{Time, add, minutes}
use shearix_platform.Scheduling.Domain.{WorkingHoursInput, Override, BlockedPeriod, Slot}
use shearix_platform.Scheduling.Availability.{intervals_for_date, available}
use shearix_platform.Scheduling.Availability.Total.{available-total}
use shearix_platform.Scheduling.Application.{
  AppError, RepoError, Op, Repository, Dependencies, Calendar, AvailabilityQuery, Asked, ask,
  step_of, slots_of_day, answer_day, availability, day_length, go_on, and_then, occupancy_error,
}

went_on :
    {S A B : Type 0} (next : A → S → Result AppError B × S) (r : Result RepoError A) (s : S) (b : B)
    → (go_on next r s).0 ≡ ok b
    → (a : A) × (r ≡ ok a) × ((next a s).0 ≡ ok b)
unfolding go_on
went_on next (err e) s b h = absurd (cc)
went_on next (ok a) s b h = (a, refl, h)

pub and_then-ok :
    {S A B : Type 0} (op : Op S A) (next : A → S → Result AppError B × S) (s : S) (b : B)
    → (and_then op next s).0 ≡ ok b
    → (a : A) × ((op s).0 ≡ ok a) × ((next a (op s).1).0 ≡ ok b)
unfolding and_then
and_then-ok op next s b h = went_on next (op s).0 (op s).1 b h

module _ {S : Type 0} (repo : Repository S) (deps : Dependencies) (cal : Calendar) (fallback : ℤ)
    (now : Time) (q : AvailabilityQuery) where
  -- What an answer of Availability rests on: what the other services and the tables said.
  pub record Day (s : S) (out : Option (List Slot)) : Type 0 where
    pub asked : Asked
    pub answers : ask deps cal q ≡ ok asked
    pub hours : WorkingHoursInput
    pub hours_read : (repo.hours q.tenant.tenant_id q.barber_id s).0 ≡ ok hours
    pub over : Override
    pub blocked : List BlockedPeriod
    pub day_read :
        (repo.day q.tenant.tenant_id q.barber_id asked.local_date
          (repo.hours q.tenant.tenant_id q.barber_id s).1).0
        ≡ ok (over, blocked)
    pub occupied : List BlockedPeriod
    pub occupied_read :
        deps.occupied q.tenant q.barber_id
          (add asked.local_date (negsuc 86399999999999))
          (add (cal.next_midnight asked.settings.timezone asked.local_date) day_length)
        ≡ ok occupied
    pub computed :
        available
          (intervals_for_date hours over
            (cal.weekday asked.settings.timezone asked.local_date)
            (cal.day_start asked.settings.timezone asked.local_date))
          blocked
          occupied
          asked.service.duration_minutes
          asked.service.buffer_before_minutes
          asked.service.buffer_after_minutes
          (step_of asked.settings fallback)
          now
        ≡ out

  answered-Day :
      (r : Result AppError Asked) (s : S) (out : Option (List Slot))
      → ask deps cal q ≡ r
      → (answer_day repo deps cal fallback now q r s).0 ≡ ok out
      → Day s out
  unfolding answer_day slots_of_day
  answered-Day (err e) s out e' h = absurd (cc)
  answered-Day (ok a) s out e' h =
      let (hours, hours_read, h1) =
        and_then-ok (repo.hours q.tenant.tenant_id q.barber_id) _ s out h in
      let (d, day_read, h2) =
        and_then-ok (repo.day q.tenant.tenant_id q.barber_id a.local_date) _
          (repo.hours q.tenant.tenant_id q.barber_id s).1 out h1 in
      let (occupied, occupied_read, h3) =
        bind-ok
          (mapped occupancy_error (
            deps.occupied q.tenant q.barber_id (add a.local_date (negsuc 86399999999999))
              (add (cal.next_midnight a.settings.timezone a.local_date) day_length)))
          _ h2 in
      record {
        asked = a;
        answers = e';
        hours = hours;
        hours_read = hours_read;
        over = d.0;
        blocked = d.1;
        day_read = day_read;
        occupied = occupied;
        occupied_read = mapped-ok occupancy_error _ occupied_read;
        computed = ground (arith, h3);
      }

  pub availability-Day :
      (s : S) (out : Option (List Slot))
      → (availability repo deps cal fallback now q s).0 ≡ ok out
      → Day s out
  unfolding availability
  availability-Day s out h = answered-Day (ask deps cal q) s out refl h

ok_same : {A : Type 0} (x y : A) → ◌≡◌ {A = Result AppError A} (ok x) (ok y) → x ≡ y
ok_same x y e = cc

none_some : {A : Type 0} (x : A) → ◌≢◌ {A = Option A} none (some x)
none_some x e = absurd (cc)

-- If the interval of the tenant or else the fallback is a step that is positive as a duration,
-- Availability never fails to end: whatever it answers is a list of slots.
pub availability-ends :
    {S : Type 0} (repo : Repository S) (deps : Dependencies) (cal : Calendar) (fallback : ℤ)
    (now : Time) (q : AvailabilityQuery) (s : S) (a : Asked) (p : ℕ)
    → ask deps cal q ≡ ok a
    → minutes (step_of a.settings fallback) ≡ pos p
    → 0 < p
    → (availability repo deps cal fallback now q s).0 ≢ ok none
availability-ends repo deps cal fallback now q s a p asked step h n =
    let d = availability-Day repo deps cal fallback now q s none n in
    let same : d.asked ≡ a = ok_same d.asked a (sym d.answers ∙ asked) in
    let (out, total) =
      available-total
        (intervals_for_date d.hours d.over
          (cal.weekday d.asked.settings.timezone d.asked.local_date)
          (cal.day_start d.asked.settings.timezone d.asked.local_date))
        d.blocked d.occupied d.asked.service.duration_minutes d.asked.service.buffer_before_minutes
        d.asked.service.buffer_after_minutes (step_of d.asked.settings fallback) now p
        (rw same step) h in
    none_some out (sym d.computed ∙ total)
