-- ===== src/Appointment/Application/Cancelling.antt =====
-- A customer's cancellation: only an own booking, and only before the deadline that is shown.
use shearix_platform.Shared.{
  String, Bool, true, false, not, ◌||◌, ◌&&◌, ◌==◌, ◌≡◌, refl, ap, Option, none, some, Result, ok,
  err, ◌<ℤ◌, ltb_ℤ→lt, str_eq, or_error, refuse_if, first, first-some, In, mapped-ok, bind-ok,
  or_error-ok, arith,
}
use shearix_platform.GoTime.{Time, minus_minutes, add}
use shearix_platform.Platform.Ids.{Uuid}
use shearix_platform.Platform.TenantContext.{Context}
use shearix_platform.Platform.SchedulingDeps.{TenantSettings}
use shearix_platform.Appointment.Domain.{Appointment}
use shearix_platform.Appointment.Store.{Row, Db, RepoError, not_found, load_appointment, Env}
use shearix_platform.Appointment.Store.Keeps.{
  send_then, expect_then, pure-Answers, with_tenant_tx-ok,
}
use shearix_platform.Appointment.Repository.{scan}
use shearix_platform.Appointment.Queries.{is_customer, get_for_customer}
use shearix_platform.Appointment.Store.Constraints.{is_active}
use shearix_platform.Appointment.Lifecycle.{transition}
use shearix_platform.Appointment.Lifecycle.Edges.{
  Edge, confirm, withdraw, cancel, complete, miss, Announced, confirmed, cancelled, completed,
  missed,
}
use shearix_platform.Appointment.Lifecycle.Outcome.{Updated, transition-ok}
use shearix_platform.Appointment.Application.{
  AppError, unavailable, conflict, Dependencies, map_repository_error,
}
use shearix_platform.Appointment.Application.Changes.{
  is_too_late, may_cancel, cancel_allowed, cancel_found, cancel_customer,
}
use shearix_platform.Appointment.Application.Reads.{cancellation_state}
use text.Mathlib.TextEquality.{eq_iff}

-- The row is a booking of the customer.
pub record IsOwn (tenant customer id : Uuid) (db : Db) (row : Row) : Type 0 where
  pub there : In row db.appointments
  pub in_tenant : row.tenant_id ≡ tenant
  pub of_customer : row.customer_id ≡ some customer
  pub named : row.id ≡ id

own_test :
    (tenant customer id : Uuid) (r : Row)
    → (r.tenant_id == tenant && is_customer customer r && r.id == id) ≡ true
    → (r.tenant_id ≡ tenant) × (is_customer customer r ≡ true) × (r.id ≡ id)
own_test tenant customer id r h = ground arith

is_customer-some :
    (customer : Uuid) (o : Option Uuid)
    → (elim o [ none ↦ false | some c ↦ c == customer ]) ≡ true
    → o ≡ some customer
is_customer-some customer none h = absurd (cc)
is_customer-some customer (some c) h = ap (λ x. some x) (ground arith)

-- What GetForCustomer answers is a booking of the customer.
pub get_for_customer-ok :
    (env : Env) (tenant customer id : Uuid) (db : Db) (a : Appointment)
    → (get_for_customer env tenant customer id db).0 ≡ ok a
    → (row : Row) × IsOwn tenant customer id db row × (a ≡ scan row)
unfolding get_for_customer
get_for_customer-ok env tenant customer id db a h =
    let (_, h1) = send_then env load_appointment _ db a _ (with_tenant_tx-ok env _ db a h) in
    let (row, found, h2) =
      expect_then not_found
        (first (λ (r : Row). r.tenant_id == tenant && is_customer customer r && r.id == id)
          db.appointments)
        _ db a _ h1 in
    let (test, m) = first-some _ db.appointments found in
    let (t, c, i) = own_test tenant customer id row test in
    (
      row,
      record {
        there = m;
        in_tenant = t;
        of_customer = is_customer-some customer row.customer_id c;
        named = i;
      },
      (pure-Answers (scan row) db a _ h2).0,
    )

or_false : (b c : Bool) → (b || not c) ≡ false → (b ≡ false) × (c ≡ true)
or_false b c h = ground arith

deadline_shown :
    (s : TenantSettings) (now : Time) (a : Appointment)
    → is_too_late s a.start_at now ≡ false
    → (d : Time) × ((cancellation_state s now a).cancellation_deadline ≡ some d) × (now <ℤ d)
unfolding is_too_late cancellation_state
deadline_shown s now a h =
    let (allowed, early) = or_false (str_eq s.cancellation_policy "no_cancellation") _ h in
    (
      add a.start_at (minus_minutes s.cancellation_notice_minutes),
      rw allowed refl,
      ltb_ℤ→lt now _ early,
    )

-- What an answer of CancelCustomer tells: `a` is the booking as it was found, `db'` are the tables
-- before the change and `db''` those after it.
pub record Cancelled (deps : Dependencies) (tenant : Context) (customer id : Uuid) (now : Time)
    (db db' db'' : Db) (b : Appointment) : Type 0 where
  pub a : Appointment
  pub row : Row
  pub own : IsOwn tenant.tenant_id customer id db row
  pub read : a ≡ scan row
  pub settings : TenantSettings
  pub asked : deps.settings tenant ≡ ok settings
  pub deadline : Time
  pub shown : (cancellation_state settings now a).cancellation_deadline ≡ some deadline
  pub in_time : now <ℤ deadline
  pub old : Row
  pub was_active : is_active old.status ≡ true
  pub answer : b ≡ scan (record old { status = "cancelled" })
  pub updated :
      Updated tenant.tenant_id id old
        (record old { status = "cancelled" })
        "AppointmentCancelled"
        "appointment.cancelled"
        db'
        db''

active-Edge : {from to : String} → Edge from to → is_active from ≡ true
unfolding is_active
active-Edge (confirm p q) = rw p refl
active-Edge (withdraw p q) = rw p refl
active-Edge (cancel p q) = rw p refl
active-Edge (complete p q) = rw p refl
active-Edge (miss p q) = rw p refl

other_text : (s t : String) → str_eq s t ≡ false → s ≡ t → ⊥
other_text s t d e = let same : str_eq s t ≡ true = (eq_iff s t).1 e in absurd (cc)

names_of_cancelled :
    {kind outbox_type : String}
    → Announced "cancelled" kind outbox_type
    → (kind ≡ "AppointmentCancelled") × (outbox_type ≡ "appointment.cancelled")
names_of_cancelled (confirmed e k t) = absurd (other_text "cancelled" "confirmed" refl e)
names_of_cancelled (cancelled e k t) = (k, t)
names_of_cancelled (completed e k t) = absurd (other_text "cancelled" "completed" refl e)
names_of_cancelled (missed e k t) = absurd (other_text "cancelled" "no_show" refl e)

-- What a Transition to cancelled has done.
cancelled_by :
    (env : Env) (tenant id : Uuid) (db : Db) (b : Appointment)
    → (transition env tenant id "cancelled" db).0 ≡ ok b
    → (old : Row) × (is_active old.status ≡ true)
      × (b ≡ scan (record old { status = "cancelled" }))
      × Updated tenant id old
          (record old { status = "cancelled" })
          "AppointmentCancelled"
          "appointment.cancelled"
          db
          (transition env tenant id "cancelled" db).1
cancelled_by env tenant id db b h =
    let (old, kind, outbox_type, edge, names, answer, updated) =
      transition-ok env tenant id "cancelled" db b h in
    let (k, t) = names_of_cancelled names in (old, active-Edge edge, answer, rw (k, t) at updated)

allowed_by :
    (deps : Dependencies) (tenant : Context) (now : Time) (a : Appointment) {u : Unit {0}}
    → may_cancel deps tenant now a ≡ ok u
    → (s : TenantSettings) × (deps.settings tenant ≡ ok s) × (is_too_late s a.start_at now ≡ false)
unfolding may_cancel
allowed_by deps tenant now a h =
    let (s, asked, h') = bind-ok (or_error unavailable (deps.settings tenant)) _ h in
    (s, or_error-ok unavailable _ asked, not_refused _ conflict h')
  where
    not_refused : (t : Bool) (e : AppError) {u : Unit {0}} → refuse_if t e ≡ ok u → t ≡ false
    not_refused true e h = absurd (cc)
    not_refused false e h = refl

module _ (deps : Dependencies) (env env' : Env) (tenant : Context) (customer id : Uuid) (now : Time)
    (db : Db) where
  transition_allowed :
      (a : Appointment) (r : Result AppError (Unit {0})) (db' : Db) (b : Appointment)
      → may_cancel deps tenant now a ≡ r
      → (get_for_customer env tenant.tenant_id customer id db).0 ≡ ok a
      → (cancel_allowed env' tenant id r db').0 ≡ ok b
      → Cancelled deps tenant customer id now db db' (cancel_allowed env' tenant id r db').1 b
  unfolding cancel_allowed
  transition_allowed a (err e) db' b m g h = absurd (cc)
  transition_allowed a (ok u) db' b m g h =
      let (row, own, read) = get_for_customer-ok env tenant.tenant_id customer id db a g in
      let (s, asked, early) = allowed_by deps tenant now a m in
      let (d, shown, in_time) = deadline_shown s now a early in
      let (old, active, answer, updated) =
        cancelled_by env' tenant.tenant_id id db' b (mapped-ok map_repository_error _ h) in
      record {
        a = a;
        row = row;
        own = own;
        read = read;
        settings = s;
        asked = asked;
        deadline = d;
        shown = shown;
        in_time = in_time;
        old = old;
        was_active = active;
        answer = answer;
        updated = updated;
      }

  found-Cancelled :
      (found : Result RepoError Appointment) (db' : Db) (b : Appointment)
      → (get_for_customer env tenant.tenant_id customer id db).0 ≡ found
      → (cancel_found deps env' tenant id now found db').0 ≡ ok b
      → Cancelled deps tenant customer id now db db'
          (cancel_found deps env' tenant id now found db').1
          b
  unfolding cancel_found
  found-Cancelled (err e) db' b g h = absurd (cc)
  found-Cancelled (ok a) db' b g h = transition_allowed a _ db' b refl g h

-- A CancelCustomer that has an answer found a booking of that customer and that tenant, and was asked
-- before the deadline that `cancellationState` shows for it. In the tables that it leaves the booking
-- of that id, which was pending or confirmed, is cancelled, nothing else of it and no other row is
-- changed, and the event and the unsent message of a cancellation are added.
pub cancel_customer-ok :
    (deps : Dependencies) (env env' : Env) (meanwhile : Db → Db) (tenant : Context)
    (customer id : Uuid) (now : Time) (db : Db) (b : Appointment)
    → (cancel_customer deps env env' meanwhile tenant customer id now db).0 ≡ ok b
    → Cancelled deps tenant customer id now db
        (meanwhile (get_for_customer env tenant.tenant_id customer id db).1)
        (cancel_customer deps env env' meanwhile tenant customer id now db).1
        b
unfolding cancel_customer
cancel_customer-ok deps env env' meanwhile tenant customer id now db b h =
    found-Cancelled deps env env' tenant customer id now db _ _ b refl h
