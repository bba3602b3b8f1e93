-- ===== src/Appointment/Lifecycle/States.antt =====
-- The final states of a booking.
use shearix_platform.Shared.{
  ◌⊎◌, String, true, false, ◌≡◌, refl, ap, ◌∙◌, inl, inr, some, List, [], ◌∷◌, ◌==◌, any, first,
  Bool-cases, arith,
}
use shearix_platform.Platform.Ids.{Uuid}
use shearix_platform.Appointment.Domain.{Appointment}
use shearix_platform.Appointment.Store.{Row, Db, Env}
use shearix_platform.Appointment.Store.Constraints.{is_row, is_active}
use shearix_platform.Appointment.Repository.{Booking, find_row, new_row}
use shearix_platform.Appointment.Repository.Outcome.{
  Created, replayed, inserted, with_key, with_new_row, create-cases,
}
use shearix_platform.Appointment.Lifecycle.{transitions, replace, moved}
use shearix_platform.Appointment.Lifecycle.Outcome.{transition-cases, reschedule-cases}
use shearix_platform.Appointment.Lifecycle.Edges.{Edge, Edge-of, find_row-own, ids_of}
use shearix_platform.Appointment.Consistent.Booking.{Step, creates, transitions_to, moves}

-- What a step does to the rows: nothing, one pending row more under a fresh id, or one active row
-- replaced by one whose status is the same or the next.
pub data Change (rows rows' : List Row) : Type 0 where
  same : rows' ≡ rows → Change rows rows'
  added :
      (row : Row)
      → row.status ≡ "pending"
      → any (λ (r : Row). r.id == row.id) rows ≡ false
      → rows' ≡ row ∷ rows
      → Change rows rows'
  changed :
      (old row : Row)
      → find_row row.tenant_id row.id rows ≡ some old
      → is_active old.status ≡ true
      → (row.status ≡ old.status) ⊎ Edge old.status row.status
      → rows' ≡ replace row rows
      → Change rows rows'

from_active : (from to : String) → transitions from to ≡ true → is_active from ≡ true
unfolding transitions is_active
from_active from to h = ground arith

rows-with_key :
    (env : Env) (tenant : Uuid) (b : Booking) (db : Db)
    → (with_key env tenant b db).appointments ≡ db.appointments
rows-with_key env tenant b db = ground arith

Created-Change :
    {env : Env} {tenant : Uuid} {b : Booking} {db : Db} {a : Appointment} {db' : Db}
    → Created env tenant b db a db'
    → Change db.appointments db'.appointments
Created-Change (replayed k row keyed found e there answer left) =
    same (ap (λ (d : Db). d.appointments) left)
Created-Change {env} {tenant} {b} {db} (inserted why c fresh free answer left) =
    added (new_row env tenant b) refl fresh (
      ap (λ (d : Db). d.appointments) left
      ∙ rows-with_key env tenant b (with_new_row (new_row env tenant b) db))

-- The row that was found under a tenant and an id has both, and so has its replacement.
replaced :
    (tenant id : Uuid) (old row : Row) (db : Db)
    → find_row tenant id db.appointments ≡ some old
    → row.tenant_id ≡ old.tenant_id
    → row.id ≡ old.id
    → is_active old.status ≡ true
    → (row.status ≡ old.status) ⊎ Edge old.status row.status
    → Change db.appointments (replace row db.appointments)
replaced tenant id old row db found t i active next =
    changed old row (find_row-own tenant id db.appointments old row found t i) active next refl

unchanged : {db db' : Db} → db' ≡ db → Change db.appointments db'.appointments
unchanged e = same (ap (λ (d : Db). d.appointments) e)

pub Step-Change : {db db' : Db} → Step db db' → Change db.appointments db'.appointments
Step-Change {db} (creates env tenant b) = elim (create-cases env tenant b db) [
  | inl e ↦ unchanged e
  | inr (a, c) ↦ Created-Change c
]
Step-Change {db} (transitions_to env tenant id to) = elim (transition-cases env tenant id to db) [
  | inl e ↦ unchanged e
  | inr (a, (old, found, allowed, answer, left)) ↦ rw left (
      replaced tenant id old (record old { status = to }) db found refl refl
        (from_active old.status to allowed) (inr (Edge-of old.status to allowed)))
]
Step-Change {db} (moves env tenant id s t u v) = elim (reschedule-cases env tenant id s t u v db) [
  | inl e ↦ unchanged e
  | inr (a, (old, found, active, answer, left)) ↦
      rw left (replaced tenant id old (moved env old s t u v) db found refl refl active (inl refl))
]

-- A row under another tenant or id is found as before the replacement.
pub find_row-replace_ne :
    (tenant id : Uuid) (row : Row) (rows : List Row)
    → is_row tenant id row ≡ false
    → find_row tenant id (replace row rows) ≡ find_row tenant id rows
unfolding first replace is_row
find_row-replace_ne tenant id row [] ne = refl
find_row-replace_ne tenant id row (r ∷ rest) ne =
    ground (arith, find_row-replace_ne tenant id row rest ne)

pub fresh_other :
    (tenant id : Uuid) (row : Row) (rows : List Row) (r : Row)
    → any (λ (s : Row). s.id == row.id) rows ≡ false
    → find_row tenant id rows ≡ some r
    → is_row tenant id row ≡ false
unfolding any first is_row
fresh_other tenant id row [] r h found = absurd (cc)
fresh_other tenant id row (s ∷ rest) r h found = ground (arith, fresh_other tenant id row rest r)

find_row-added :
    (tenant id : Uuid) (row : Row) (rows : List Row)
    → is_row tenant id row ≡ false
    → find_row tenant id (row ∷ rows) ≡ find_row tenant id rows
unfolding first
find_row-added tenant id row rows ne = rw ne

other_row :
    (tenant id : Uuid) (r old row : Row) (rows : List Row)
    → find_row tenant id rows ≡ some r
    → is_active r.status ≡ false
    → find_row row.tenant_id row.id rows ≡ some old
    → is_active old.status ≡ true
    → is_row tenant id row ≡ false
other_row tenant id r old row rows found final there active =
    elim (Bool-cases (is_row tenant id row)) [
      | inl e ↦ let (t, i) = ids_of tenant id row e in absurd (clash (rw (← t, ← i) at there))
      | inr e ↦ e
    ]
  where
    clash : find_row tenant id rows ≡ some old → ⊥
    clash e = ground (arith, found, final, active)

-- A booking that is cancelled, completed or missed is never changed again: whichever transaction
-- runs, and whichever of its statements fail, its row is found as it was.
pub final_row_kept :
    {db db' : Db} (tenant id : Uuid) (r : Row)
    → Step db db'
    → find_row tenant id db.appointments ≡ some r
    → is_active r.status ≡ false
    → find_row tenant id db'.appointments ≡ some r
final_row_kept {db} tenant id r st found final = elim (Step-Change st) [
  | same e ↦ rw e found
  | added row opened fresh e ↦ rw e (
      find_row-added tenant id row db.appointments
        (fresh_other tenant id row db.appointments r fresh found)
      ∙ found)
  | changed old row there active next e ↦ rw e (
      find_row-replace_ne tenant id row db.appointments
        (other_row tenant id r old row db.appointments found final there active)
      ∙ found)
]
