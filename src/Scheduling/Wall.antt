-- ===== src/Scheduling/Wall.antt =====
-- services/scheduling-service/internal/service/availability.go, lines 23-47: wall-clock intervals.
-- `time.Parse("15:04", v)` takes one or two digits below 24, a colon, and two digits below 60.
pub mod Ordered
use shearix_platform.Shared.{
  ℕ, ◌+◌, ◌-◌, ◌*◌, Bool, true, false, ◌&&◌, ◌||◌, not, Option, none, some, List, [], ◌∷◌, leb, ltb,
  ◌==◌, if◌then◌else◌, ℤ, pos, negsuc, ltb_ℤ,
}
use shearix_platform.Scheduling.Domain.{Interval}

abbrev is_digit : ℕ → Bool
is_digit c = leb b'0' c && leb c b'9'

-- Two digits at the end of the text, below 60.
unfoldable pub parse_minute : List ℕ → Option ℕ
parse_minute (a ∷ b ∷ []) =
    let m = (a - b'0') * 10 + (b - b'0') in
    if is_digit a && is_digit b && ltb m 60 then some m else none
parse_minute _ = none

-- The rest after the hour's digits.
unfoldable pub parse_after_hour : ℕ → List ℕ → Option (ℕ × ℕ)
unfolding parse_minute
parse_after_hour h (c ∷ rest) =
    if c == b':' && ltb h 24
    then elim (parse_minute rest) [ none ↦ none | some m ↦ some (h, m) ]
    else none
parse_after_hour _ [] = none

-- time.Parse("15:04", v): the hour and the minute.
unfoldable pub parse_clock : List ℕ → Option (ℕ × ℕ)
unfolding parse_after_hour
parse_clock (a ∷ b ∷ rest) =
    if is_digit a
    then (if is_digit b
        then parse_after_hour ((a - b'0') * 10 + (b - b'0')) rest
        else parse_after_hour (a - b'0') (b ∷ rest))
    else none
parse_clock _ = none

-- parseWall: nanoseconds after midnight, or -1.
unfoldable pub parse_wall : List ℕ → ℤ
unfolding parse_clock
parse_wall v = elim (parse_clock v) [
  | none ↦ negsuc 0
  | some (h, m) ↦ pos (h * 3600000000000 + m * 60000000000)
]

unfoldable pub wall : Interval → ℤ × ℤ × Bool
wall v =
    let s = parse_wall v.start in
    let e = parse_wall v.end in (s, e, not (ltb_ℤ s (pos 0)) && not (ltb_ℤ e (pos 0)))

-- The loop of ValidIntervals, from the end of the interval before.
unfoldable pub valid_from : ℤ → List Interval → Bool
unfolding wall
valid_from prev [] = true
valid_from prev (v ∷ rest) =
    let (s, e, ok) = wall v in
    if not ok || not (ltb_ℤ s e) || ltb_ℤ s prev then false else valid_from e rest

unfoldable pub valid_intervals : List Interval → Bool
unfolding valid_from
valid_intervals rest = valid_from (negsuc 0) rest
