-- ===== src/Scheduling/Availability/Rounds.antt =====
-- One round of the loop of Available, taken apart.
use mathlib.Core.Option
use shearix_platform.Shared.{
  ℕ, suc, ◌≡◌, refl, ◌⊎◌, Bool, true, false, not, ◌||◌, Option, none, some, List, [], ◌∷◌, ◌++◌,
  inl, inr, if◌then◌else◌, ℤ, any, arith,
}
use shearix_platform.GoTime.{Time, add, before, after, minutes}
use shearix_platform.Scheduling.Domain.{BlockedPeriod, Slot}
use shearix_platform.Scheduling.Availability.{occ_start, occ_end, clashes, scan, rounds, scan_all}

-- How a round with the tests `t`, `b` and `c` came to its list `out`.
pub data Round (t b c : Bool) (rest : Option (List Slot)) (s : Slot) (out : List Slot)
    : Type 0 where
  stop : t ≡ true → out ≡ [] → Round t b c rest s out
  skip : t ≡ false → (b ≡ true) ⊎ (c ≡ true) → rest ≡ some out → Round t b c rest s out
  offer :
      t ≡ false
      → b ≡ false
      → c ≡ false
      → (more : List Slot) → rest ≡ some more
      → out ≡ s ∷ more
      → Round t b c rest s out

Round-of :
    (t b c : Bool) (rest : Option (List Slot)) (s : Slot) {out : List Slot}
    → (if t
        then some []
        else if b
        then rest
        else if c
        then rest
        else Option.map (λ more. s ∷ more) rest)
      ≡ some out
    → Round t b c rest s out
Round-of true b c rest s h = stop refl (ground arith)
Round-of false true c rest s h = skip refl (inl refl) h
Round-of false false true rest s h = skip refl (inr refl) h
Round-of false false false (some more) s h = offer refl refl refl more refl (ground arith)
Round-of false false false none s h = absurd (cc)

pub scan-Round :
    (busy : List BlockedPeriod) (duration lead trail step : ℤ) (now : Time) (f : ℕ) (i : Slot)
    (start : Time) {out : List Slot}
    → scan busy duration lead trail step now (suc f) i start ≡ some out
    → Round
        (after (occ_end duration trail start) i.end_at)
        (before (occ_start lead start) i.start_at || not (after start now))
        (any (clashes (occ_start lead start) (occ_end duration trail start)) busy)
        (scan busy duration lead trail step now f i (add start (minutes step)))
        (record { start_at = start; end_at = add start (minutes duration) })
        out
unfolding scan
scan-Round busy duration lead trail step now f i start h = Round-of _ _ _ _ _ h

joined :
    (o p : Option (List Slot)) {out : List Slot}
    → (elim o [ none ↦ none | some a ↦ Option.map (λ more. a ++ more) p ]) ≡ some out
    → (a : List Slot) × (o ≡ some a) × (more : List Slot) × (p ≡ some more) × (out ≡ a ++ more)
joined (some a) (some more) h = (a, refl, more, refl, ground arith)
joined (some a) none h = absurd (cc)
joined none p h = absurd (cc)

-- The list for several intervals is that of the first, and then that of the others.
pub scan_all-cons :
    (busy : List BlockedPeriod) (duration lead trail step : ℤ) (now : Time) (i : Slot)
    (rest : List Slot) {out : List Slot}
    → scan_all busy duration lead trail step now (i ∷ rest) ≡ some out
    → (a : List Slot) × (scan busy duration lead trail step now
          (rounds busy duration lead trail step now i)
          i
          i.start_at
        ≡ some a)
      × (more : List Slot) × (scan_all busy duration lead trail step now rest ≡ some more)
      × (out ≡ a ++ more)
unfolding scan_all
scan_all-cons busy duration lead trail step now i rest h =
    joined _ (scan_all busy duration lead trail step now rest) h
