-- ===== src/Scheduling/Availability/Total.antt =====
-- The loop of Available ends: the fuel of `rounds` is enough whenever the step is positive.
use mathlib.Core.Option
use shearix_platform.Shared.{
  ℕ, zero, suc, ◌+◌, ◌*◌, ◌/◌, ◌<◌, ◌≡◌, refl, Bool, true, false, Option, none, some, List, [], ◌∷◌,
  ◌++◌, inl, inr, Bool-cases, if◌then◌else◌, ℤ, pos, pos_part, neg_part, ◌-ℤ◌, arith, +ℤ_parts,
  -ℤ_parts, lt→ltb_ℤ,
}
use shearix_platform.GoTime.{Time, add, after, add_int, minutes}
use shearix_platform.Scheduling.Domain.{BlockedPeriod, Slot}
use shearix_platform.Scheduling.Availability.{occ_end, scan, rounds, scan_all, available}

-- A value is there.
abbrev pub Given {ℓ} : {A : Type ℓ} → Option A → Type ℓ
Given {A} o = (a : A) × (o ≡ some a)

Given-map {ℓ κ} :
    {A : Type ℓ} {B : Type κ} (f : A → B) (o : Option A) → Given o → Given (Option.map f o)
Given-map f (some a) h = (f a, refl)
Given-map f none h = absurd (cc)

Given-if {ℓ} :
    {A : Type ℓ} (b : Bool) (x y : Option A) → Given x → Given y → Given (if b then x else y)
Given-if true x y h k = h
Given-if false x y h k = k

below_next : (x p : ℕ) → 0 < p → x < (x / p + 1) * p
below_next x p h = omega arith

-- A round of the loop ends if the rounds after it do.
scan_round-Given :
    (busy : List BlockedPeriod) (duration lead trail step : ℤ) (now : Time) (f : ℕ) (i : Slot)
    (start : Time)
    → (after (occ_end duration trail start) i.end_at ≡ false
        → Given (scan busy duration lead trail step now f i (add start (minutes step))))
    → Given (scan busy duration lead trail step now (suc f) i start)
unfolding scan
scan_round-Given busy duration lead trail step now f i start ends =
    elim (Bool-cases (after (occ_end duration trail start) i.end_at)) [
      | inl e ↦ rw e ([], refl)
      | inr e ↦
          let rest = ends e in rw e (Given-if _ _ _ rest (Given-if _ _ _ rest (Given-map _ _ rest)))
    ]

module _ (busy : List BlockedPeriod) (duration lead trail step : ℤ) (now : Time) (p : ℕ)
    (step-eq : minutes step ≡ pos p) (positive : 0 < p) where
  -- The end of the span that an appointment from `start` occupies.
  abbrev end_of : Time → Time
  end_of start = occ_end duration trail start

  -- One round leaves less of the interval.
  advance :
      (f : ℕ) (i : Slot) (start : Time)
      → pos_part i.end_at + neg_part (end_of start)
        < pos_part (end_of start) + neg_part i.end_at + (f + 1) * p
      → let next = end_of (add start (minutes step)) in
        pos_part i.end_at + neg_part next < pos_part next + neg_part i.end_at + f * p
  advance f i start h = rw step-eq (
      omega (
        arith,
        +ℤ_parts start (minutes (add_int duration trail)),
        +ℤ_parts (add start (pos p)) (minutes (add_int duration trail)),
        +ℤ_parts start (pos p),
      ))

  -- Past the end of the interval the loop's test fails.
  past :
      (i : Slot) (start : Time)
      → pos_part i.end_at + neg_part (end_of start) < pos_part (end_of start) + neg_part i.end_at
      → after (end_of start) i.end_at ≡ true
  past i start h = lt→ltb_ℤ i.end_at (end_of start) (omega arith)

  scan-Given :
      (f : ℕ) (i : Slot) (start : Time)
      → pos_part i.end_at + neg_part (end_of start)
        < pos_part (end_of start) + neg_part i.end_at + f * p
      → Given (scan busy duration lead trail step now (suc f) i start)
  scan-Given zero i start h =
      scan_round-Given busy duration lead trail step now 0 i start
        (λ e. absurd (cc (past i start (omega arith))))
  scan-Given (suc f) i start h =
      scan_round-Given busy duration lead trail step now (suc f) i start
        (λ e. scan-Given f i (add start (minutes step)) (advance f i start (omega arith)))

  rounds-enough :
      (i : Slot)
      → pos_part i.end_at + neg_part (end_of i.start_at)
        < pos_part (end_of i.start_at)
          + neg_part i.end_at
          + (pos_part (i.end_at -ℤ end_of i.start_at) / p + 1) * p
  rounds-enough i = omega (
    arith,
    -ℤ_parts i.end_at (end_of i.start_at),
    below_next (pos_part (i.end_at -ℤ end_of i.start_at)) p positive,
  )

  scan-rounds-Given :
      (i : Slot)
      → Given (
          scan busy duration lead trail step now
            (rounds busy duration lead trail step now i)
            i
            i.start_at)
  unfolding rounds
  scan-rounds-Given i =
      rw step-eq (
        scan-Given (pos_part (i.end_at -ℤ end_of i.start_at) / p + 1) i i.start_at
          (rounds-enough i))

  scan_all-Given :
      (intervals : List Slot) → Given (scan_all busy duration lead trail step now intervals)
  unfolding scan_all
  scan_all-Given [] = ([], refl)
  scan_all-Given (i ∷ rest) =
      let (out, e) = scan-rounds-Given i in rw (scan_all, e) (Given-map _ _ (scan_all-Given rest))

-- With a positive step, as the duration that the int64 arithmetic gives, Available returns, whatever
-- the intervals, the busy periods and the service's times.
pub available-total :
    (intervals : List Slot) (blocked occupied : List BlockedPeriod) (duration lead trail step : ℤ)
    (now : Time) (p : ℕ)
    → minutes step ≡ pos p
    → 0 < p
    → (out : List Slot) × (available intervals blocked occupied duration lead trail step now
        ≡ some out)
unfolding available
available-total intervals blocked occupied duration lead trail step now p e h =
    scan_all-Given (blocked ++ occupied) duration lead trail step now p e h intervals
