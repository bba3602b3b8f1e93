-- ===== src/Scheduling/Availability.antt =====
-- services/scheduling-service/internal/service/availability.go, lines 48-90: the slots of a day.
pub mod Offered
pub mod Rounds
pub mod Total
pub mod Sound
pub mod Complete
use mathlib.Core.Option
use shearix_platform.Shared.{
  ℕ, suc, zero, ◌+◌, ◌/◌, Bool, ◌&&◌, ◌||◌, not, Option, none, some, List, [], ◌∷◌, ◌++◌, ◌==◌,
  if◌then◌else◌, ℤ, pos_part, ◌-ℤ◌, eqb_ℤ, any,
}
use shearix_platform.GoTime.{Time, add, before, after, add_int, minutes, minus_minutes}
use shearix_platform.Scheduling.Domain.{Interval, WorkingHoursInput, Override, BlockedPeriod, Slot}
use shearix_platform.Scheduling.Wall.{wall}
use text.Mathlib.Text.{◌==◌ as str_eq}

-- The intervals of the first entry of the weekday, if there is one.
unfoldable pub hours_of : ℤ → WorkingHoursInput → List Interval
hours_of weekday [] = []
hours_of weekday (d ∷ rest) = if eqb_ℤ d.weekday weekday then d.intervals else hours_of weekday rest

-- The slots of the intervals that parse, counted from `base`, the local midnight.
unfoldable pub slots_of : Time → List Interval → List Slot
unfolding wall
slots_of base [] = []
slots_of base (v ∷ rest) =
    let (s, e, ok) = wall v in
    if ok
    then record { start_at = add base s; end_at = add base e } ∷ slots_of base rest
    else slots_of base rest

-- `weekday` and `base` are `date.Weekday()` and what `time.Date` gives in the zone for the year, month
-- and day of `date`.
unfoldable pub intervals_for_date : WorkingHoursInput → Override → ℤ → Time → List Slot
unfolding hours_of slots_of
intervals_for_date hours over weekday base =
    if not (over.id == 0)
    then (if not (str_eq over.kind "custom_hours") then [] else slots_of base over.intervals)
    else slots_of base (hours_of weekday hours)

-- `occStart` and `occEnd` of a slot that starts at `start`.
abbrev pub occ_start : ℤ → Time → Time
occ_start lead start = add start (minus_minutes lead)

abbrev pub occ_end : ℤ → ℤ → Time → Time
occ_end duration trail start = add start (minutes (add_int duration trail))

-- The test of the innermost loop.
unfoldable pub clashes : Time → Time → BlockedPeriod → Bool
clashes from to x = before from x.end_at && after to x.start_at

module _ (busy : List BlockedPeriod) (duration lead trail step : ℤ) (now : Time) where
  -- The inner loop of Available over one interval, from `start`. `none`: the fuel ran out.
  unfoldable pub scan : ℕ → Slot → Time → Option (List Slot)
  unfolding clashes
  scan zero i start = none
  scan (suc fuel) i start =
      let rest = scan fuel i (add start (minutes step)) in
      if after (occ_end duration trail start) i.end_at
      then some []
      else if before (occ_start lead start) i.start_at || not (after start now)
      then rest
      else if any (clashes (occ_start lead start) (occ_end duration trail start)) busy
      then rest
      else Option.map
          (λ out. record { start_at = start; end_at = add start (minutes duration) } ∷ out) rest

  -- Rounds that are enough for an interval if the step is positive: the loop ends once the end of the
  -- occupied span, whatever its sign, has passed that of the interval.
  unfoldable pub rounds : Slot → ℕ
  rounds i =
      suc (pos_part (i.end_at -ℤ occ_end duration trail i.start_at) / pos_part (minutes step) + 1)

  unfoldable pub scan_all : List Slot → Option (List Slot)
  unfolding scan rounds
  scan_all [] = some []
  scan_all (i ∷ rest) = elim (scan (rounds i) i i.start_at) [
    | none ↦ none
    | some out ↦ Option.map (λ more. out ++ more) (scan_all rest)
  ]

-- Available; `none` means that the loop of some interval does not end, as its step is not positive.
unfoldable pub available :
    List Slot → List BlockedPeriod → List BlockedPeriod → ℤ → ℤ → ℤ → ℤ → Time → Option (List Slot)
unfolding scan_all
available intervals blocked occupied duration lead trail step now =
    scan_all (blocked ++ occupied) duration lead trail step now intervals
