-- ===== src/Appointment/Lifecycle/Edges.antt =====
-- The life cycle of a booking as a graph of states, and what an update does to the list of rows.
use shearix_platform.Shared.{
  String, true, ◌≡◌, refl, ap, sym, ◌∙◌, inl, inr, some, List, [], ◌∷◌, ◌++◌, first, Bool-cases,
  arith,
}
use shearix_platform.Platform.Ids.{Uuid}
use shearix_platform.Appointment.Store.{Row}
use shearix_platform.Appointment.Store.Constraints.{is_row}
use shearix_platform.Appointment.Repository.{find_row}
use shearix_platform.Appointment.Lifecycle.{transitions, title, replace}
use Prim.Native.String.{◌++◌ as str_append}
use text.Mathlib.Text.{◌==◌ as str_eq}
use text.Mathlib.TextEquality.{eq_iff}

-- The edges of the life cycle.
pub data Edge (from to : String) : Type 0 where
  confirm : from ≡ "pending" → to ≡ "confirmed" → Edge from to
  withdraw : from ≡ "pending" → to ≡ "cancelled" → Edge from to
  cancel : from ≡ "confirmed" → to ≡ "cancelled" → Edge from to
  complete : from ≡ "confirmed" → to ≡ "completed" → Edge from to
  miss : from ≡ "confirmed" → to ≡ "no_show" → Edge from to

pub Edge-of : (from to : String) → transitions from to ≡ true → Edge from to
unfolding transitions
Edge-of from to h = elim (Bool-cases (str_eq from "pending")) [
  | inl p ↦ elim (Bool-cases (str_eq to "confirmed")) [
    | inl q ↦ confirm ((eq_iff from "pending").0 p) ((eq_iff to "confirmed").0 q)
    | inr q ↦ withdraw ((eq_iff from "pending").0 p) ((eq_iff to "cancelled").0 (ground arith))
  ]
  | inr p ↦ elim (Bool-cases (str_eq to "cancelled")) [
    | inl q ↦ cancel ((eq_iff from "confirmed").0 (ground arith)) ((eq_iff to "cancelled").0 q)
    | inr q ↦ elim (Bool-cases (str_eq to "completed")) [
      | inl c ↦ complete ((eq_iff from "confirmed").0 (ground arith)) ((eq_iff to "completed").0 c)
      | inr c ↦
          miss ((eq_iff from "confirmed").0 (ground arith)) ((eq_iff to "no_show").0 (ground arith))
    ]
  ]
]

-- The names of the event and of the message that tell of a new state.
pub data Announced (to kind outbox_type : String) : Type 0 where
  confirmed :
      to ≡ "confirmed"
      → kind ≡ "AppointmentConfirmed"
      → outbox_type ≡ "appointment.confirmed"
      → Announced to kind outbox_type
  cancelled :
      to ≡ "cancelled"
      → kind ≡ "AppointmentCancelled"
      → outbox_type ≡ "appointment.cancelled"
      → Announced to kind outbox_type
  completed :
      to ≡ "completed"
      → kind ≡ "AppointmentCompleted"
      → outbox_type ≡ "appointment.completed"
      → Announced to kind outbox_type
  missed :
      to ≡ "no_show"
      → kind ≡ "AppointmentNoShow"
      → outbox_type ≡ "appointment.no_show"
      → Announced to kind outbox_type

pub Edge-Announced :
    {from to : String} → Edge from to → Announced to (title to) (str_append "appointment." to)
unfolding title
Edge-Announced (confirm p q) = confirmed q (rw q refl) (rw q refl)
Edge-Announced (withdraw p q) = cancelled q (rw q refl) (rw q refl)
Edge-Announced (cancel p q) = cancelled q (rw q refl) (rw q refl)
Edge-Announced (complete p q) = completed q (rw q refl) (rw q refl)
Edge-Announced (miss p q) = missed q (rw q refl) (rw q refl)

pub find_row-is :
    (tenant id : Uuid) (rows : List Row) (old : Row)
    → find_row tenant id rows ≡ some old
    → is_row tenant id old ≡ true
unfolding first
find_row-is tenant id [] old h = absurd (cc)
find_row-is tenant id (r ∷ rest) old h = ground (arith, find_row-is tenant id rest old)

pub ids_of :
    (tenant id : Uuid) (r : Row) → is_row tenant id r ≡ true → (tenant ≡ r.tenant_id) × (id ≡ r.id)
unfolding is_row
ids_of tenant id r h = ground arith

pub find_row-own :
    (tenant id : Uuid) (rows : List Row) (old row : Row)
    → find_row tenant id rows ≡ some old
    → row.tenant_id ≡ old.tenant_id
    → row.id ≡ old.id
    → find_row row.tenant_id row.id rows ≡ some old
find_row-own tenant id rows old row h t i =
    let (t', i') = ids_of tenant id old (find_row-is tenant id rows old h) in
    ap (λ x. find_row x row.id rows) (t ∙ sym t')
    ∙ ap (λ x. find_row tenant x rows) (i ∙ sym i')
    ∙ h

-- One row of a list gave way to another, and every other row stayed in its place.
pub record Replaced (old row : Row) (rows rows' : List Row) : Type 0 where
  pub before : List Row
  pub after : List Row
  pub was : rows ≡ before ++ old ∷ after
  pub becomes : rows' ≡ before ++ row ∷ after

pub find_row-Replaced :
    (old row : Row) (rows : List Row)
    → find_row row.tenant_id row.id rows ≡ some old
    → Replaced old row rows (replace row rows)
unfolding first replace
find_row-Replaced old row [] h = absurd (cc)
find_row-Replaced old row (r ∷ rest) h = elim (Bool-cases (is_row row.tenant_id row.id r)) [
  | inl e ↦ record { before = []; after = rest; was = ground (arith, e, h); becomes = rw e refl }
  | inr e ↦
      let k = find_row-Replaced old row rest (ground (arith, e, h)) in
      record {
        before = r ∷ k.before;
        after = k.after;
        was = ap (λ l. r ∷ l) k.was;
        becomes = rw e (ap (λ l. r ∷ l) k.becomes);
      }
]
