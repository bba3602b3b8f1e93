-- ===== src/Scheduling/Availability/Sound.antt =====
-- Every slot that Available returns can be booked.
use shearix_platform.Shared.{
  ℕ, zero, suc, ◌≡◌, refl, ap, In-nil, In-cons, ◌⊎◌, false, not, ◌||◌, Option, some, List, [], ◌∷◌,
  ◌++◌, inl, inr, ℤ, ◌≤ℤ◌, any, In, here, there, any-false, In-append_cases, arith,
}
use shearix_platform.GoTime.{Time, add, before, after, minutes}
use shearix_platform.Scheduling.Domain.{BlockedPeriod, Slot}
use shearix_platform.Scheduling.Availability.{
  occ_start, occ_end, clashes, scan, rounds, scan_all, available,
}
use shearix_platform.Scheduling.Availability.Rounds.{
  Round, stop, skip, offer, scan-Round, scan_all-cons,
}
use shearix_platform.Scheduling.Availability.Offered.{point, IsBookable, IsOffered}

-- A period that does not clash lies before or after the occupied span.
clear :
    (from to : Time) (b : BlockedPeriod)
    → clashes from to b ≡ false
    → (b.end_at ≤ℤ from) ⊎ (to ≤ℤ b.start_at)
unfolding clashes
clear from to b h = ground arith

module _ (busy : List BlockedPeriod) (duration lead trail step : ℤ) (now : Time) where
  -- The three tests of a round, when they let the slot pass.
  pub bookable :
      (i : Slot) (start : Time)
      → after (occ_end duration trail start) i.end_at ≡ false
      → (before (occ_start lead start) i.start_at || not (after start now)) ≡ false
      → any (clashes (occ_start lead start) (occ_end duration trail start)) busy ≡ false
      → IsBookable busy duration lead trail now i
          (record { start_at = start; end_at = add start (minutes duration) })
  bookable i start h k l = record {
    ends = refl;
    fits = ground arith;
    led = ground arith;
    future = ground arith;
    free = λ b m. clear _ _ b (any-false _ busy l m);
  }

  abbrev Found : Slot → Time → Slot → Type 0
  Found i start x =
      (k : ℕ) × (x.start_at ≡ point k step start) × IsBookable busy duration lead trail now i x

  abbrev slot_at : Time → Slot
  slot_at start = record { start_at = start; end_at = add start (minutes duration) }

  -- A round finds its own slot, or one of the rounds from the next start, one step later.
  Round-sound :
      (i : Slot) (start : Time) (rest : Option (List Slot)) (out : List Slot) (x : Slot)
      → Round
          (after (occ_end duration trail start) i.end_at)
          (before (occ_start lead start) i.start_at || not (after start now))
          (any (clashes (occ_start lead start) (occ_end duration trail start)) busy)
          rest
          (slot_at start)
          out
      → ((more : List Slot) → rest ≡ some more → In x more → Found i (add start (minutes step)) x)
      → In x out
      → Found i start x
  Round-sound i start rest out x (stop t e) later m = absurd (In-nil (rw e at m))
  Round-sound i start rest out x (skip t w e) later m =
      let (k, at, ok) = later out e m in (suc k, at, ok)
  Round-sound i start rest out x (offer t b c more e e') later m = elim (In-cons (rw e' at m)) [
    | inl same ↦ (0, ap (λ (s : Slot). s.start_at) same, rw same (bookable i start t b c))
    | inr found ↦ let (k, at, ok) = later more e found in (suc k, at, ok)
  ]

  scan_sound :
      (f : ℕ) (i : Slot) (start : Time) (out : List Slot) (x : Slot)
      → scan busy duration lead trail step now f i start ≡ some out
      → In x out
      → Found i start x
  scan_sound zero i start out x h m = absurd (unfold scan in cc)
  scan_sound (suc f) i start out x h m =
      Round-sound i start _ out x (scan-Round busy duration lead trail step now f i start h)
        (λ more e. scan_sound f i (add start (minutes step)) more x e) m

  scan_all_sound :
      (intervals : List Slot) (out : List Slot) (x : Slot)
      → scan_all busy duration lead trail step now intervals ≡ some out
      → In x out
      → (i : Slot) × In i intervals × Found i i.start_at x
  unfolding scan_all
  scan_all_sound [] out x h m = let e : out ≡ [] = ground arith in absurd (In-nil (rw e at m))
  scan_all_sound (i ∷ rest) out x h m =
      let (a, e, more, e', j) = scan_all-cons busy duration lead trail step now i rest h in
      elim (In-append_cases a more (rw j at m)) [
        | inl k ↦ (
          i,
          here refl,
          scan_sound (rounds busy duration lead trail step now i) i i.start_at a x e k,
        )
        | inr k ↦ let (i', m', found) = scan_all_sound rest more x e' k in (i', there m', found)
      ]

-- Every slot that Available returns stands on the grid of one of the intervals and can be booked:
-- it has the service's length, starts after `now`, and its span with buffers lies in the interval
-- and meets no blocked period and no appointment.
pub available_sound :
    (intervals : List Slot) (blocked occupied : List BlockedPeriod) (duration lead trail step : ℤ)
    (now : Time) (out : List Slot) (x : Slot)
    → available intervals blocked occupied duration lead trail step now ≡ some out
    → In x out
    → (i : Slot) × In i intervals
      × ((k : ℕ) × IsOffered (blocked ++ occupied) duration lead trail step now i x k)
unfolding available
available_sound intervals blocked occupied duration lead trail step now out x h m =
    let (i, at, found) =
      scan_all_sound (blocked ++ occupied) duration lead trail step now intervals out x h m in
    let (k, start, ok) = found in (i, at, (k, (start, ok)))
