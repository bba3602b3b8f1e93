-- ===== src/Scheduling/Availability/Offered.antt =====
-- What a slot that Available offers has to be, stated without the loop.
use shearix_platform.Shared.{ℕ, zero, suc, ◌≡◌, ◌⊎◌, List, In, ℤ, ◌≤ℤ◌, ◌<ℤ◌}
use shearix_platform.GoTime.{Time, add, minutes}
use shearix_platform.Scheduling.Domain.{BlockedPeriod, Slot}
use shearix_platform.Scheduling.Availability.{occ_start, occ_end}

-- The k-th start of the grid with the given step in minutes.
abbrev pub point : ℕ → ℤ → Time → Time
point zero step start = start
point (suc k) step start = point k step (add start (minutes step))

-- `x` can be booked in the interval `i`: it has the service's length, its occupied span (buffers
-- included) lies in the interval and is clear of every busy period, and it starts after `now`.
pub record IsBookable (busy : List BlockedPeriod) (duration lead trail : ℤ) (now : Time)
    (i x : Slot) : Type 0 where
  pub ends : x.end_at ≡ add x.start_at (minutes duration)
  pub fits : occ_end duration trail x.start_at ≤ℤ i.end_at
  pub led : i.start_at ≤ℤ occ_start lead x.start_at
  pub future : now <ℤ x.start_at
  pub free :
      (b : BlockedPeriod)
      → In b busy
      → (b.end_at ≤ℤ occ_start lead x.start_at) ⊎ (occ_end duration trail x.start_at ≤ℤ b.start_at)

-- `x` is the k-th slot of the interval's grid, and can be booked.
abbrev pub IsOffered : List BlockedPeriod → ℤ → ℤ → ℤ → ℤ → Time → Slot → Slot → ℕ → Type 0
IsOffered busy duration lead trail step now i x k =
    (x.start_at ≡ point k step i.start_at) × IsBookable busy duration lead trail now i x
