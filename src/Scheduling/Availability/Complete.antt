-- ===== src/Scheduling/Availability/Complete.antt =====
-- Available misses no slot that can be booked.
use shearix_platform.Shared.{
  ℕ, zero, suc, ◌<◌, ◌≡◌, refl, ◌⊎◌, false, not, ◌||◌, Option, some, List, [], ◌∷◌, ◌++◌, inl, inr,
  ℤ, pos, ◌≤ℤ◌, any, In, here, there, any_of_none, In-append_left, In-append_right, arith, +ℤ_parts,
  le→ltb_ℤ,
}
use shearix_platform.GoTime.{Time, add, before, after, add_int, minutes}
use shearix_platform.Scheduling.Domain.{BlockedPeriod, Slot}
use shearix_platform.Scheduling.Availability.{
  occ_start, occ_end, clashes, scan, rounds, scan_all, available,
}
use shearix_platform.Scheduling.Availability.Rounds.{
  Round, stop, skip, offer, scan-Round, scan_all-cons,
}
use shearix_platform.Scheduling.Availability.Total.{available-total}
use shearix_platform.Scheduling.Availability.Offered.{point, IsBookable, IsOffered}

le-point :
    (k : ℕ) (step : ℤ) (p : ℕ) (start : Time) → minutes step ≡ pos p → start ≤ℤ point k step start
le-point zero step p start e = omega arith
le-point (suc k) step p start e = omega (
  arith,
  le-point k step p (add start (minutes step)) e,
  rw (← e) at (+ℤ_parts start (pos p)),
  next_le start p (minutes step) e,
)
  where
    next_le : (s : ℤ) (p : ℕ) (d : ℤ) → d ≡ pos p → s ≤ℤ add s d
    next_le s p d e = rw e (omega (arith, +ℤ_parts s (pos p)))

not_clashing :
    (from to : Time) (b : BlockedPeriod)
    → (b.end_at ≤ℤ from) ⊎ (to ≤ℤ b.start_at)
    → clashes from to b ≡ false
unfolding clashes
not_clashing from to b h = ground arith

module _ (busy : List BlockedPeriod) (duration lead trail step : ℤ) (now : Time) (i x : Slot)
    (ok : IsBookable busy duration lead trail now i x) where
  -- The loop has not ended at a start that is no later than that of `x`.
  goes_on :
      (start : Time) → start ≤ℤ x.start_at → after (occ_end duration trail start) i.end_at ≡ false
  goes_on start h = le→ltb_ℤ i.end_at (occ_end duration trail start) (
      omega (
        arith,
        ok.fits,
        +ℤ_parts start (minutes (add_int duration trail)),
        +ℤ_parts x.start_at (minutes (add_int duration trail)),
      ))

  timely : (before (occ_start lead x.start_at) i.start_at || not (after x.start_at now)) ≡ false
  timely = ground (arith, ok.led, ok.future)

  unclashed :
      any (clashes (occ_start lead x.start_at) (occ_end duration trail x.start_at)) busy ≡ false
  unclashed = any_of_none _ busy (λ b m. not_clashing _ _ b (ok.free b m))

  same_slot_at :
      (start : Time)
      → x.start_at ≡ start
      → x ≡ record { start_at = start; end_at = add start (minutes duration) }
  same_slot_at start e = ground (arith, ok.ends)

  Round-complete :
      (k : ℕ) (start : Time) (rest : Option (List Slot)) (out : List Slot)
      → x.start_at ≡ point k step start
      → start ≤ℤ x.start_at
      → Round
          (after (occ_end duration trail start) i.end_at)
          (before (occ_start lead start) i.start_at || not (after start now))
          (any (clashes (occ_start lead start) (occ_end duration trail start)) busy)
          rest
          (record { start_at = start; end_at = add start (minutes duration) })
          out
      → ((j : ℕ) (more : List Slot) → k ≡ suc j → rest ≡ some more → In x more)
      → In x out
  Round-complete k start rest out e le (stop t e') later = absurd (cc (goes_on start le))
  Round-complete zero start rest out e le (skip t (inl b) e') later = absurd (cc (rw e at timely))
  Round-complete zero start rest out e le (skip t (inr c) e') later =
      absurd (cc (rw e at unclashed))
  Round-complete zero start rest out e le (offer t b c more e' o) later =
      rw o (here (same_slot_at start e))
  Round-complete (suc k) start rest out e le (skip t w e') later = later k out refl e'
  Round-complete (suc k) start rest out e le (offer t b c more e' o) later =
      rw o (there (later k more refl e'))

  scan_complete :
      (p : ℕ)
      → minutes step ≡ pos p
      → (f k : ℕ) (start : Time) (out : List Slot)
      → scan busy duration lead trail step now f i start ≡ some out
      → x.start_at ≡ point k step start
      → In x out
  scan_complete p g zero k start out h e = absurd (unfold scan in cc)
  scan_complete p g (suc f) k start out h e =
      Round-complete k start _ out e (rw e (le-point k step p start g))
        (scan-Round busy duration lead trail step now f i start h)
        (λ j more e' h'. scan_complete p g f j (add start (minutes step)) more h' (rw e' at e))

module _ (busy : List BlockedPeriod) (duration lead trail step : ℤ) (now : Time) (p : ℕ)
    (forward : minutes step ≡ pos p) where
  scan_all_complete :
      (intervals out : List Slot) (i x : Slot) (k : ℕ)
      → scan_all busy duration lead trail step now intervals ≡ some out
      → In i intervals
      → IsOffered busy duration lead trail step now i x k
      → In x out
  scan_all_complete [] out i x k h m found = elim m [ ]
  scan_all_complete (j ∷ rest) out i x k h (here same) (at, ok) =
      let (a, e, more, e', o) = scan_all-cons busy duration lead trail step now j rest h in
      rw o (
        In-append_left a more (
          scan_complete busy duration lead trail step now j x (rw same at ok) p forward
            (rounds busy duration lead trail step now j) k j.start_at a e (rw same at at)))
  scan_all_complete (j ∷ rest) out i x k h (there m) found =
      let (a, e, more, e', o) = scan_all-cons busy duration lead trail step now j rest h in
      rw o (In-append_right a more (scan_all_complete rest more i x k e' m found))

-- If the step is positive, Available returns, and what it returns has every slot on the grid of an
-- interval that can be booked against the blocked and the occupied periods.
pub available_complete :
    (intervals : List Slot) (blocked occupied : List BlockedPeriod) (duration lead trail step : ℤ)
    (now : Time) (p : ℕ) (i x : Slot) (k : ℕ)
    → minutes step ≡ pos p
    → 0 < p
    → In i intervals
    → IsOffered (blocked ++ occupied) duration lead trail step now i x k
    → (out : List Slot) × (available intervals blocked occupied duration lead trail step now
        ≡ some out)
      × In x out
unfolding available
available_complete intervals blocked occupied duration lead trail step now p i x k e h m found =
    let (out, given) =
      available-total intervals blocked occupied duration lead trail step now p e h in
    (
      out,
      given,
      scan_all_complete (blocked ++ occupied) duration lead trail step now p e intervals out i x k
          given m found,
    )
