-- ===== src/Tenant/Settings/Valid.antt =====
-- What the settings that a tenant stores satisfy.
use shearix_platform.Shared.{
  String, Bool, true, false, ◌&&◌, not, ◌≡◌, ◌≢◌, refl, sym, ap, ◌⊎◌, Option, none, some, List, [],
  ◌∷◌, any, str_eq, Result, ok, err, if◌then◌else◌, ℤ, pos, ◌≤ℤ◌, eqb_ℤ, ltb_ℤ→le, All, In, here,
  there, arith,
}
use shearix_platform.Platform.Library.{Library}
use shearix_platform.Tenant.Domain.{Settings, UpdateSettingsInput}
use shearix_platform.Tenant.Settings.{
  InputError, invalid_input, in_range, offsets_from, valid_offsets, is_policy, is_valid,
  validate_settings, is_empty, updated, merge_settings,
}
use text.Mathlib.TextEquality.{eq_iff}

-- A reminder offset within a week.
abbrev pub IsOffset : ℤ → Type 0
IsOffset o = (pos 1 ≤ℤ o) × (o ≤ℤ pos 10080)

-- No offset is there twice.
abbrev pub AreDistinct : List ℤ → Type 0
AreDistinct [] = Unit
AreDistinct (o ∷ rest) = (In o rest → ⊥) × AreDistinct rest

pub record IsStorable (s : Settings) : Type 0 where
  pub named_zone : s.business_timezone ≢ ""
  pub not_local : s.business_timezone ≢ "Local"
  pub interval_from : pos 1 ≤ℤ s.booking_interval_minutes
  pub interval_to : s.booking_interval_minutes ≤ℤ pos 120
  pub first_offset : ℤ
  pub more_offsets : List ℤ
  pub has_offsets : s.reminder_offsets_minutes ≡ some (first_offset ∷ more_offsets)
  pub offsets : All IsOffset (first_offset ∷ more_offsets)
  pub distinct : AreDistinct (first_offset ∷ more_offsets)
  pub policy :
      (s.cancellation_policy ≡ "allow_until_notice") ⊎ (s.cancellation_policy ≡ "no_cancellation")
  pub notice_from : pos 0 ≤ℤ s.cancellation_notice_minutes
  pub notice_to : s.cancellation_notice_minutes ≤ℤ pos 10080
  pub horizon_from : pos 1 ≤ℤ s.booking_horizon_days
  pub horizon_to : s.booking_horizon_days ≤ℤ pos 365
  pub minimum_from : pos 0 ≤ℤ s.minimum_booking_notice_minutes
  pub minimum_to : s.minimum_booking_notice_minutes ≤ℤ pos 10080

in_range-le : (low high n : ℤ) → in_range low high n ≡ true → (low ≤ℤ n) × (n ≤ℤ high)
unfolding in_range
in_range-le low high n h = (ltb_ℤ→le n low (ground arith), ltb_ℤ→le high n (ground arith))

and_true : (b c : Bool) → (b && c) ≡ true → (b ≡ true) × (c ≡ true)
and_true b c h = ground arith

not-true : (b : Bool) → not b ≡ true → b ≡ false
not-true b h = ground arith

unseen_both :
    (o x : ℤ) (seen : List ℤ)
    → any (eqb_ℤ x) (o ∷ seen) ≡ false
    → (eqb_ℤ x o ≡ false) × (any (eqb_ℤ x) seen ≡ false)
unfolding any
unseen_both o x seen h = ground arith

eqb_ℤ_refl : (o : ℤ) → eqb_ℤ o o ≡ true
eqb_ℤ_refl o = ground arith

offsets_from-All :
    (seen os : List ℤ)
    → offsets_from seen os ≡ true
    → All IsOffset os × AreDistinct os × ((o : ℤ) → In o os → any (eqb_ℤ o) seen ≡ false)
unfolding offsets_from
offsets_from-All seen [] h = (tt, tt, λ o m. elim m [ ])
offsets_from-All seen (o ∷ rest) h =
    let (now, later) = and_true (in_range (pos 1) (pos 10080) o && not (any (eqb_ℤ o) seen)) _ h in
    let (range, fresh) = and_true (in_range (pos 1) (pos 10080) o) _ now in
    let (all_in, distinct, unseen) = offsets_from-All (o ∷ seen) rest later in
    (
      (in_range-le (pos 1) (pos 10080) o range, all_in),
      ((λ m. absurd (cc ((unseen_both o o seen (unseen o m)).0, eqb_ℤ_refl o))), distinct),
      earlier unseen (not-true _ fresh),
    )
  where
    earlier :
        ((x : ℤ) → In x rest → any (eqb_ℤ x) (o ∷ seen) ≡ false)
        → any (eqb_ℤ o) seen ≡ false
        → (x : ℤ) → In x (o ∷ rest)
        → any (eqb_ℤ x) seen ≡ false
    earlier u f x (here e) = rw e f
    earlier u f x (there m) = (unseen_both o x seen (u x m)).1

text_is_not : (s t : String) → str_eq s t ≡ false → s ≢ t
text_is_not s t h e = absurd (cc ((eq_iff s t).1 e, h))

policy_is : (p : String) → is_policy p ≡ true → (p ≡ "allow_until_notice") ⊎ (p ≡ "no_cancellation")
unfolding is_policy
policy_is p h = ground (arith, eq_iff p "allow_until_notice", eq_iff p "no_cancellation")

offsets_there :
    (o : Option (List ℤ))
    → valid_offsets o ≡ true
    → (x : ℤ) × ((xs : List ℤ) × (o ≡ some (x ∷ xs)) × All IsOffset (x ∷ xs) × AreDistinct (x ∷ xs))
unfolding valid_offsets
offsets_there none h = absurd (cc)
offsets_there (some []) h = absurd (cc)
offsets_there (some (x ∷ xs)) h =
    let (a, d, u) = offsets_from-All [] (x ∷ xs) h in (x, (xs, refl, a, d))

module _ (lib : Library) (has_zone : String → Bool) where
  is_valid-IsStorable : (s : Settings) → is_valid lib has_zone s ≡ true → IsStorable s
  unfolding is_valid
  is_valid-IsStorable s h =
      let (h1, minimum) = and_true _ _ h in
      let (h2, horizon) = and_true _ _ h1 in
      let (h3, notice) = and_true _ _ h2 in
      let (h4, policy) = and_true _ _ h3 in
      let (h5, offsets) = and_true _ _ h4 in
      let (h6, interval) = and_true _ _ h5 in
      let (h7, zone) = and_true _ _ h6 in
      let (named, local) = and_true _ _ h7 in
      let (x, there_are) = offsets_there s.reminder_offsets_minutes offsets in
      let (xs, e, a, d) = there_are in
      record {
        named_zone = text_is_not s.business_timezone "" (not-true _ named);
        not_local = text_is_not s.business_timezone "Local" (not-true _ local);
        interval_from = (in_range-le (pos 1) (pos 120) s.booking_interval_minutes interval).0;
        interval_to = (in_range-le (pos 1) (pos 120) s.booking_interval_minutes interval).1;
        first_offset = x;
        more_offsets = xs;
        has_offsets = e;
        offsets = a;
        distinct = d;
        policy = policy_is s.cancellation_policy policy;
        notice_from = (in_range-le (pos 0) (pos 10080) s.cancellation_notice_minutes notice).0;
        notice_to = (in_range-le (pos 0) (pos 10080) s.cancellation_notice_minutes notice).1;
        horizon_from = (in_range-le (pos 1) (pos 365) s.booking_horizon_days horizon).0;
        horizon_to = (in_range-le (pos 1) (pos 365) s.booking_horizon_days horizon).1;
        minimum_from = (in_range-le (pos 0) (pos 10080) s.minimum_booking_notice_minutes minimum).0;
        minimum_to = (in_range-le (pos 0) (pos 10080) s.minimum_booking_notice_minutes minimum).1;
      }

  passed :
      (b : Bool) (s t : Settings)
      → ◌≡◌ {A = Result InputError Settings} (if b then ok s else err invalid_input) (ok t)
      → (b ≡ true) × (s ≡ t)
  passed true s t h = (refl, cc)
  passed false s t h = absurd (cc)

  validate_settings-ok :
      (s t : Settings)
      → validate_settings lib has_zone s ≡ ok t
      → IsStorable t × (t ≡ record s { business_timezone = lib.trim_space s.business_timezone })
  unfolding validate_settings
  validate_settings-ok s t h =
      let (v, e) = passed _ _ t h in (rw (← e) (is_valid-IsStorable _ v), sym e)

  given :
      (b : Bool) (r : Result InputError Settings) (t : Settings)
      → ◌≡◌ {A = Result InputError Settings} (if b then err invalid_input else r) (ok t)
      → r ≡ ok t
  given true r t h = absurd (cc)
  given false r t h = h

-- A merge of an update with the stored settings that has an answer gives settings that satisfy every
-- bound, whatever was stored before, for the same tenant and with the same cancellation notice, which
-- no update can change.
pub merge_settings-ok :
    (lib : Library) (has_zone : String → Bool) (current : Settings) (input : UpdateSettingsInput)
    (s : Settings)
    → merge_settings lib has_zone current input ≡ ok s
    → IsStorable s
      × (s.tenant_id ≡ current.tenant_id)
      × (s.cancellation_notice_minutes ≡ current.cancellation_notice_minutes)
unfolding merge_settings updated
merge_settings-ok lib has_zone current input s h =
    let (storable, e) =
      validate_settings-ok lib has_zone (updated lib has_zone current input) s
        (given lib has_zone (is_empty lib has_zone input) _ s h) in
    (
      storable,
      ap (λ (t : Settings). t.tenant_id) e,
      ap (λ (t : Settings). t.cancellation_notice_minutes) e,
    )
