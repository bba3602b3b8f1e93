-- ===== src/Tests/Slots.antt =====
-- A day of one barber, in minutes after midnight: open from 9:00 to 10:00, a booking from 9:15.
use shearix_platform.Shared.{
  ℕ, ◌*◌, ◌≡◌, refl, ◌↔◌, inl, true, false, ◌⊎◌, Option, some, List, [], ◌∷◌, pos, negsuc, ◌+ℤ◌,
  ◌-ℤ◌, ◌*ℤ◌, ◌≤ℤ◌, In, here, there, any, codes, arith, String,
}
use shearix_platform.GoTime.{Time, minutes, add_int, minus_minutes, negate, wrap64}
use shearix_platform.Scheduling.Domain.{Interval, BlockedPeriod, Slot}
use shearix_platform.Scheduling.Wall.{valid_intervals, parse_wall}
use shearix_platform.Scheduling.Wall.Ordered.{IsOrdered, valid_intervals_iff}
use shearix_platform.Scheduling.Availability.{available}
use shearix_platform.Scheduling.Availability.Offered.{IsOffered}
use shearix_platform.Scheduling.Availability.Total.{available-total}
use shearix_platform.Scheduling.Availability.Sound.{available_sound}
use shearix_platform.Scheduling.Availability.Complete.{available_complete}

abbrev at : ℕ → Time
at m = pos (m * 60000000000)

abbrev window : Slot
window = record { start_at = at 540; end_at = at 600 }

abbrev booked_period : BlockedPeriod
booked_period = record { id = 7; start_at = at 555; end_at = at 570 }

abbrev slot_of : ℕ → ℕ → Slot
slot_of s e = record { start_at = at s; end_at = at e }

abbrev day : Option (List Slot)
day = available (window ∷ []) [] (booked_period ∷ []) (pos 15) (pos 0) (pos 0) (pos 15) (at 500)

day_slots : day ≡ some (slot_of 540 555 ∷ slot_of 570 585 ∷ slot_of 585 600 ∷ [])
unfolding available minutes add_int minus_minutes negate wrap64 any ◌+ℤ◌ ◌-ℤ◌ ◌*ℤ◌
day_slots = refl

available-total_example : (out : List Slot) × (day ≡ some out)
unfolding minutes add_int wrap64 ◌+ℤ◌ ◌*ℤ◌
available-total_example =
    available-total (window ∷ []) [] (booked_period ∷ []) (pos 15) (pos 0) (pos 0) (pos 15) (at 500)
      900000000000 refl (omega arith)

available_sound_example :
    (i : Slot) × In i (window ∷ [])
    × ((k : ℕ) × IsOffered
          (booked_period ∷ [])
          (pos 15)
          (pos 0)
          (pos 0)
          (pos 15)
          (at 500)
          i
          (slot_of 570 585)
          k)
available_sound_example =
    available_sound (window ∷ []) [] (booked_period ∷ []) (pos 15) (pos 0) (pos 0) (pos 15) (at 500)
      (slot_of 540 555 ∷ slot_of 570 585 ∷ slot_of 585 600 ∷ []) (slot_of 570 585) day_slots
      (there (here refl))

third-IsOffered :
    IsOffered
      (booked_period ∷ [])
      (pos 15)
      (pos 0)
      (pos 0)
      (pos 15)
      (at 500)
      window
      (slot_of 570 585)
      2
unfolding minutes add_int minus_minutes negate wrap64 ◌+ℤ◌ ◌-ℤ◌ ◌*ℤ◌
third-IsOffered = (
  refl,
  record {
    ends = refl;
    fits = omega arith;
    led = omega arith;
    future = omega arith;
    free = clear_of_booked;
  },
)
  where
    clear_of_booked :
        (b : BlockedPeriod)
        → In b (booked_period ∷ [])
        → (b.end_at ≤ℤ at 570) ⊎ (at 585 ≤ℤ b.start_at)
    clear_of_booked b (here e) = inl (rw e (omega arith))
    clear_of_booked b (there m) = elim m [ ]

available_complete_example : (out : List Slot) × (day ≡ some out) × In (slot_of 570 585) out
unfolding minutes wrap64 ◌*ℤ◌
available_complete_example =
    available_complete (window ∷ []) [] (booked_period ∷ []) (pos 15) (pos 0) (pos 0) (pos 15)
      (at 500) 900000000000 window (slot_of 570 585) 2 refl (omega arith) (here refl)
      third-IsOffered

-- A length that is below zero, as a catalog of another version might send it, still ends.
backward_slots :
    available (window ∷ []) [] [] (negsuc 59) (pos 0) (pos 0) (pos 60) (at 500)
    ≡ some (
        record { start_at = at 540; end_at = at 480 }
        ∷ record { start_at = at 600; end_at = at 540 }
        ∷ record { start_at = at 660; end_at = at 600 }
        ∷ [])
unfolding available minutes add_int minus_minutes negate wrap64 any ◌+ℤ◌ ◌-ℤ◌ ◌*ℤ◌
backward_slots = refl

abbrev interval_of : String → String → Interval
interval_of s e = record { start = codes s; end = codes e }

abbrev shop_hours : List Interval
shop_hours = interval_of "09:00" "12:30" ∷ interval_of "13:30" "18:00" ∷ []

hours_accepted : valid_intervals shop_hours ≡ true
unfolding valid_intervals parse_wall
hours_accepted = refl

-- An hour may have one digit; a break that starts before the interval before it ends is refused.
overlap_refused :
    valid_intervals (interval_of "9:00" "12:30" ∷ interval_of "12:00" "18:00" ∷ []) ≡ false
unfolding valid_intervals parse_wall
overlap_refused = refl

valid_intervals_iff_example : (valid_intervals shop_hours ≡ true) ↔ IsOrdered shop_hours
valid_intervals_iff_example = valid_intervals_iff shop_hours
