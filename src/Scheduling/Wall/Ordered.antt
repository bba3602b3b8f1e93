-- ===== src/Scheduling/Wall/Ordered.antt =====
-- What ValidIntervals accepts.
use shearix_platform.Shared.{
  ◌≡◌, refl, ◌↔◌, true, List, [], ◌∷◌, ℤ, pos, negsuc, ◌≤ℤ◌, ◌<ℤ◌, All, All-map, arith,
}
use shearix_platform.Scheduling.Domain.{Interval}
use shearix_platform.Scheduling.Wall.{parse_wall, valid_from, valid_intervals}

-- Both ends parse, and the end is later than the start.
abbrev pub IsProper : Interval → Type 0
IsProper v = (pos 0 ≤ℤ parse_wall v.start) × (parse_wall v.start <ℤ parse_wall v.end)

-- `w` starts no earlier than the given time.
abbrev pub StartsFrom : ℤ → Interval → Type 0
StartsFrom t w = t ≤ℤ parse_wall w.start

-- Every interval is proper, and ends before each later one starts.
abbrev pub IsOrdered : List Interval → Type 0
IsOrdered [] = Unit
IsOrdered (v ∷ rest) = IsProper v × All (StartsFrom (parse_wall v.end)) rest × IsOrdered rest

-- The tests of one round.
passes :
    (prev : ℤ) (v : Interval) (rest : List Interval)
    → valid_from prev (v ∷ rest) ≡ true
    → IsProper v × StartsFrom prev v × (valid_from (parse_wall v.end) rest ≡ true)
unfolding valid_from
passes prev v rest h = ground arith

accepts :
    (prev : ℤ) (v : Interval) (rest : List Interval)
    → IsProper v
    → StartsFrom prev v
    → valid_from prev (v ∷ rest) ≡ valid_from (parse_wall v.end) rest
unfolding valid_from
accepts prev v rest h k = ground arith

from_later :
    (prev t : ℤ) (v w : Interval)
    → IsProper v
    → StartsFrom prev v
    → StartsFrom (parse_wall v.end) w
    → StartsFrom prev w
from_later prev t v w h k l = omega arith

valid_from-IsOrdered :
    (prev : ℤ) (xs : List Interval)
    → valid_from prev xs ≡ true
    → All (StartsFrom prev) xs × IsOrdered xs
valid_from-IsOrdered prev [] h = (tt, tt)
valid_from-IsOrdered prev (v ∷ rest) h =
    let (proper, from, more) = passes prev v rest h in
    let (later, ordered) = valid_from-IsOrdered (parse_wall v.end) rest more in
    (
      (from, All-map rest (λ w. from_later prev prev v w proper from) later),
      (proper, later, ordered),
    )

IsOrdered-valid_from :
    (prev : ℤ) (xs : List Interval)
    → All (StartsFrom prev) xs
    → IsOrdered xs
    → valid_from prev xs ≡ true
IsOrdered-valid_from prev [] h k = unfold valid_from in refl
IsOrdered-valid_from prev (v ∷ rest) h k =
    rw (accepts prev v rest k.0 h.0) (IsOrdered-valid_from (parse_wall v.end) rest k.1 k.2)

started : (xs : List Interval) → IsOrdered xs → All (StartsFrom (negsuc 0)) xs
started [] h = tt
started (v ∷ rest) h = (omega arith, started rest h.2)

-- ValidIntervals accepts exactly the lists whose intervals all have ends that parse, end after they
-- start, and end no later than any later interval of the list starts.
pub valid_intervals_iff : (xs : List Interval) → (valid_intervals xs ≡ true) ↔ IsOrdered xs
unfolding valid_intervals
valid_intervals_iff xs = (
  λ h. (valid_from-IsOrdered (negsuc 0) xs h).1,
  λ h. IsOrdered-valid_from (negsuc 0) xs (started xs h) h,
)
