-- ===== src/Tests/Schedules.antt =====
-- A barber's Monday, kept by a repository whose state is the working hours.
use shearix_platform.Shared.{
  ℕ, ◌*◌, ◌≡◌, ◌≢◌, ◌↔◌, refl, true, all, codes, none, some, List, [], ◌∷◌, ok, pos, All, ◌+ℤ◌,
  ◌*ℤ◌, arith,
}
use shearix_platform.GoTime.{Time, minutes, add_int, wrap64}
use shearix_platform.Scheduling.Domain.{WorkingHoursInput, Override, Slot}
use shearix_platform.Scheduling.Wall.{valid_intervals, parse_wall}
use shearix_platform.Scheduling.Application.{
  Principal, Repository, Dependencies, Calendar, AvailabilityQuery, Asked, authorize, valid_hours,
  valid_day, replace_hours, ask, step_of, availability,
}
use shearix_platform.Scheduling.Application.Access.{IsAuthorized, authorize_iff}
use shearix_platform.Scheduling.Application.Hours.{IsDay, replace_hours-ok}
use shearix_platform.Scheduling.Application.Days.{availability-ends}
use shearix_platform.Tests.Libraries.{tenant, service, settings}

abbrev pub monday : WorkingHoursInput
monday =
    record {
      weekday = pos 1;
      intervals = record { start = codes "09:00"; end = codes "10:00" } ∷ [];
    }
    ∷ []

abbrev no_override : Override
no_override = record { id = 0; date = ""; kind = ""; intervals = [] }

abbrev pub repo : Repository WorkingHoursInput
repo = record {
  replace_hours = λ t b input s. (ok tt, input);
  hours = λ t b s. (ok s, s);
  overrides = λ t b s. (ok [], s);
  save_override = λ t b i o s. (ok no_override, s);
  delete_override = λ t b i s. (ok tt, s);
  blocks = λ t b s. (ok [], s);
  save_block = λ t b i s. (ok (record { id = 1; start_at = i.start_at; end_at = i.end_at }), s);
  delete_block = λ t b i s. (ok tt, s);
  day = λ t b d s. (ok (no_override, []), s);
}

abbrev pub deps : Dependencies
deps = record {
  barber = λ t b. ok (record { identity_id = some 8 });
  service = λ t b s. ok service;
  settings = λ t. ok settings;
  occupied = λ t b from to. ok [];
}

abbrev pub calendar : Calendar
calendar = record {
  is_date = λ s. true;
  midnight = λ zone d. some (pos 0);
  weekday = λ zone d. pos 1;
  next_midnight = λ zone d. pos (1440 * 60000000000);
  day_start = λ zone d. d;
}

abbrev barber_8 : Principal
barber_8 = record { identity_id = 8; role = "BARBER" }

abbrev pub query : AvailabilityQuery
query = record { tenant = tenant; principal = none; barber_id = 3; service_id = 4; date = pos 5 }

abbrev at : ℕ → Time
at m = pos (m * 60000000000)

authorize_iff_example :
    (authorize deps tenant barber_8 3 true ≡ ok tt) ↔ IsAuthorized deps tenant barber_8 3 true
authorize_iff_example = authorize_iff deps tenant barber_8 3 true

monday_stored : (replace_hours repo deps calendar tenant barber_8 3 monday []).0 ≡ ok tt
unfolding replace_hours authorize valid_hours valid_day valid_intervals parse_wall all
monday_stored = refl

replace_hours-ok_example :
    IsAuthorized deps tenant barber_8 3 true
    × All IsDay monday
    × ((repo.replace_hours 1 3 monday []).0 ≡ ok tt)
    × ((replace_hours repo deps calendar tenant barber_8 3 monday []).1
        ≡ (repo.replace_hours 1 3 monday []).1)
replace_hours-ok_example =
    replace_hours-ok repo deps calendar tenant barber_8 3 monday [] tt monday_stored

abbrev slot_of : ℕ → ℕ → Slot
slot_of s e = record { start_at = at s; end_at = at e }

abbrev slots : List Slot
slots = slot_of 555 575 ∷ slot_of 570 590 ∷ []

abbrev pub asked : Asked
asked = record { service = service; settings = settings; local_date = pos 0 }

availability-ends_example :
    (availability repo deps calendar (pos 15) (pos 0) query monday).0 ≢ ok none
unfolding ask step_of minutes add_int wrap64 ◌+ℤ◌ ◌*ℤ◌
availability-ends_example =
    availability-ends repo deps calendar (pos 15) (pos 0) query monday asked 900000000000 refl refl
      (omega arith)
