-- ===== src/Appointment/Lifecycle/Refined.antt =====
-- The tables of the appointment service as an abstract map from bookings to states.
use mathlib.Core.Option
use shearix_platform.Shared.{
  String, true, false, ◌≡◌, refl, ap, ◌∙◌, inl, inr, Option, none, some, List, [], ◌∷◌, first,
  Bool-cases, Option-cases, arith,
}
use shearix_platform.Platform.Ids.{Uuid}
use shearix_platform.Appointment.Store.{Row, Db}
use shearix_platform.Appointment.Store.Constraints.{is_row}
use shearix_platform.Appointment.Repository.{find_row}
use shearix_platform.Appointment.Lifecycle.{replace}
use shearix_platform.Appointment.Lifecycle.Edges.{Edge, ids_of}
use shearix_platform.Appointment.Lifecycle.States.{
  Change, same, added, changed, Step-Change, find_row-replace_ne, fresh_other,
}
use shearix_platform.Appointment.Consistent.Booking.{Step}

-- The state of a booking, if it exists.
abbrev pub state_of : Uuid → Uuid → List Row → Option String
state_of tenant id rows = Option.map (λ (r : Row). r.status) (find_row tenant id rows)

-- The abstract machine of one booking: it stays, comes to be as pending, or goes along an edge.
pub data Moves (o o' : Option String) : Type 0 where
  stays : o' ≡ o → Moves o o'
  opens : o ≡ none → o' ≡ some "pending" → Moves o o'
  goes : (from to : String) → o ≡ some from → o' ≡ some to → Edge from to → Moves o o'

find_row-replace_eq :
    (row old : Row) (rows : List Row)
    → is_row row.tenant_id row.id row ≡ true
    → find_row row.tenant_id row.id rows ≡ some old
    → find_row row.tenant_id row.id (replace row rows) ≡ some row
unfolding first replace
find_row-replace_eq row old [] own h = absurd (cc)
find_row-replace_eq row old (r ∷ rest) own h = elim (Bool-cases (is_row row.tenant_id row.id r)) [
  | inl e ↦ rw (e, own) refl
  | inr e ↦ rw (e, e) (find_row-replace_eq row old rest own (ground (arith, e, h)))
]

absent :
    (tenant id : Uuid) (row : Row) (rows : List Row)
    → is_row tenant id row ≡ true
    → ((r : Row) → find_row tenant id rows ≡ some r → is_row tenant id row ≡ false)
    → find_row tenant id rows ≡ none
absent tenant id row rows own other = elim (Option-cases (find_row tenant id rows)) [
  | inl e ↦ e
  | inr (r, e) ↦ let no = other r e in absurd (cc)
]

Change-Moves :
    (tenant id : Uuid) (rows rows' : List Row)
    → Change rows rows'
    → Moves (state_of tenant id rows) (state_of tenant id rows')
unfolding first
Change-Moves tenant id rows rows' (same e) = stays (ap (state_of tenant id) e)
Change-Moves tenant id rows rows' (added row pending fresh e) =
    elim (Bool-cases (is_row tenant id row)) [
      | inl own ↦
          let no =
            absent tenant id row rows own (λ r h. fresh_other tenant id row rows r fresh h) in
          rw (e, own, pending, no) (opens refl refl)
      | inr other ↦ rw (e, other) (stays refl)
    ]
Change-Moves tenant id rows rows' (changed old row there active next e) =
    elim (Bool-cases (is_row tenant id row)) [
      | inl own ↦
          let (t, i) = ids_of tenant id row own in
          let before : find_row tenant id rows ≡ some old = rw (t, i) there in
          let after : find_row tenant id (replace row rows) ≡ some row =
            rw (t, i) (find_row-replace_eq row old rows (rw (t, i) at own) there) in
          elim next [
            | inl kept ↦ stays (rw (e, before, after) (ap (λ x. some x) kept))
            | inr edge ↦ goes old.status row.status (rw before refl) (rw (e, after) refl) edge
          ]
      | inr other ↦ stays (
          ap (state_of tenant id) e
          ∙ ap (Option.map (λ (r : Row). r.status)) (find_row-replace_ne tenant id row rows other))
    ]

-- The tables refine the abstract machine: whichever of Create, Transition and Reschedule runs, and
-- whichever of its statements fail, the state of every booking of every tenant stays, or comes to be
-- as pending, or goes along an edge of the life cycle.
pub Step-Moves :
    {db db' : Db} (tenant id : Uuid)
    → Step db db'
    → Moves (state_of tenant id db.appointments) (state_of tenant id db'.appointments)
Step-Moves {db} {db'} tenant id st =
    Change-Moves tenant id db.appointments db'.appointments (Step-Change st)
