-- ===== src/Appointment/Application/Access.antt =====
-- Who may change a booking's state.
use shearix_platform.Shared.{
  String, Bool, true, false, not, ◌&&◌, ◌||◌, ◌≡◌, refl, ◌⊎◌, inl, inr, Result, ok, err, mapped-ok,
  refuse_if-ok, str_eq, arith,
}
use shearix_platform.Platform.Ids.{Uuid}
use shearix_platform.Appointment.Domain.{Appointment}
use shearix_platform.Appointment.Store.{Row, Db, Env}
use shearix_platform.Appointment.Repository.{scan}
use shearix_platform.Appointment.Lifecycle.{transition}
use shearix_platform.Appointment.Lifecycle.Edges.{Edge, Announced}
use shearix_platform.Appointment.Lifecycle.Outcome.{Updated, transition-ok}
use shearix_platform.Appointment.Application.{
  AppError, Principal, forbidden, can_manage, map_repository_error,
}
use shearix_platform.Appointment.Application.Changes.{may_change, change_allowed, change_status}
use text.Mathlib.TextEquality.{eq_iff}

-- Someone of the staff who manages bookings.
pub data IsManager (p : Principal) : Type 0 where
  owner : p.kind ≡ "admin" → p.role ≡ "OWNER" → IsManager p
  manager : p.kind ≡ "admin" → p.role ≡ "MANAGER" → IsManager p
  receptionist : p.kind ≡ "admin" → p.role ≡ "RECEPTIONIST" → IsManager p

or_cases : (b c : Bool) → (b || c) ≡ true → (b ≡ true) ⊎ (c ≡ true)
or_cases true c h = inl h
or_cases false c h = inr h

and_cases : (b c : Bool) → (b && c) ≡ true → (b ≡ true) × (c ≡ true)
and_cases b c h = ground arith

text_is : (s t : String) → str_eq s t ≡ true → s ≡ t
text_is s t h = (eq_iff s t).0 h

managed : (p : Principal) → p.kind ≡ "admin" → can_manage p.role ≡ true → IsManager p
unfolding can_manage
managed p k h = elim (or_cases (str_eq p.role "OWNER" || str_eq p.role "MANAGER") _ h) [
  | inl e ↦ elim (or_cases (str_eq p.role "OWNER") _ e) [
    | inl e' ↦ owner k (text_is p.role "OWNER" e')
    | inr e' ↦ manager k (text_is p.role "MANAGER" e')
  ]
  | inr e ↦ receptionist k (text_is p.role "RECEPTIONIST" e)
]

changer :
    (p : Principal) (to : String)
    → may_change p to ≡ true
    → IsManager p ⊎ ((p.kind ≡ "guest") × (to ≡ "cancelled"))
unfolding may_change
changer p to h = elim (or_cases (str_eq p.kind "admin" && can_manage p.role) _ h) [
  | inl e ↦
      let (k, r) = and_cases (str_eq p.kind "admin") _ e in
      inl (managed p (text_is p.kind "admin" k) r)
  | inr e ↦
      let (k, t) = and_cases (str_eq p.kind "guest") _ e in
      inr (text_is p.kind "guest" k, text_is to "cancelled" t)
]

changed :
    (env : Env) (tenant id : Uuid) (to : String) (r : Result AppError (Unit {0})) (db : Db)
    (a : Appointment)
    → (change_allowed env tenant id to r db).0 ≡ ok a
    → ((u : Unit {0}) × (r ≡ ok u))
      × ((transition env tenant id to db).0 ≡ ok a)
      × ((change_allowed env tenant id to r db).1 ≡ (transition env tenant id to db).1)
unfolding change_allowed
changed env tenant id to (err e) db a h = absurd (cc)
changed env tenant id to (ok u) db a h = ((u, refl), mapped-ok map_repository_error _ h, refl)

-- A status change that has an answer was asked by an owner, a manager or a receptionist, or by a
-- guest who cancels. It has taken the booking of that tenant and id along an edge of the life cycle
-- in the tables that it leaves, where every other row is as it was, and has added the event and the
-- unsent message of the new state; the answer is the new row.
pub change_status-ok :
    (env : Env) (tenant : Uuid) (p : Principal) (id : Uuid) (to : String) (db : Db)
    (a : Appointment)
    → (change_status env tenant p id to db).0 ≡ ok a
    → (IsManager p ⊎ ((p.kind ≡ "guest") × (to ≡ "cancelled")))
      × ((old : Row) × (kind : String) × (outbox_type : String) × Edge old.status to
          × Announced to kind outbox_type
          × (a ≡ scan (record old { status = to }))
          × Updated tenant id old
              (record old { status = to })
              kind
              outbox_type
              db
              (change_status env tenant p id to db).1)
unfolding change_status
change_status-ok env tenant p id to db a h =
    let ((u, passed), made, left) = changed env tenant id to _ db a h in
    let (allowed, _) = refuse_if-ok (not (may_change p to)) forbidden _ passed in
    (changer p to (ground (arith, allowed)), rw left (transition-ok env tenant id to db a made))
