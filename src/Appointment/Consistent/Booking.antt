-- ===== src/Appointment/Consistent/Booking.antt =====
-- Every transaction of the repository, failing or not, keeps the tables consistent.
use shearix_platform.Shared.{
  String, ◌≤ℤ◌, ==_refl, ◌≡◌, ◌≢◌, ◌⊎◌, true, false, Option, none, some, List, [], ◌∷◌, ◌==◌,
  All-In, In, here, there, arith,
}
use shearix_platform.GoTime.{Time}
use shearix_platform.Platform.Ids.{Uuid}
use shearix_platform.Appointment.Domain.{Appointment}
use shearix_platform.Appointment.Store.{Row, KeyRow, EventRow, OutboxRow, Db, empty, Env, Tx}
use shearix_platform.Appointment.Store.Constraints.{excludes, is_active}
use shearix_platform.Appointment.Store.Keeps.{Keeps, Answers, keeps_rules, Keeps-with_tenant_tx}
use shearix_platform.Appointment.Repository.{
  Booking, replay_key, insert_key_row, keep_key, append_event, insert_event_row, insert_outbox_row,
  insert_new, replay_or_insert, create_body, create,
}
use shearix_platform.Appointment.Lifecycle.{
  transition_body, transition, reschedule_body, reschedule,
}
use shearix_platform.Appointment.Consistent.{
  IsConsistent, Apart, AreApart, excludes_comm, insert_row-IsConsistent, update_row-IsConsistent,
}

-- The keys, the events and the outbox are other tables.
same_rows :
    {A : Type 0} (m : Tx A)
    → ((db : Db) (a : A) (db' : Db) → Answers m db a db' → db'.appointments ≡ db.appointments)
    → Keeps IsConsistent m
same_rows m same = record {
  at = λ db h a db' e. record {
    checked = rw (same db a db' e) h.checked;
    apart = rw (same db a db' e) h.apart;
  };
}

insert_key_row-IsConsistent : (k : KeyRow) → Keeps IsConsistent (insert_key_row k)
unfolding insert_key_row
insert_key_row-IsConsistent k = same_rows _ (λ db a db' e. ground arith)

insert_event_row-IsConsistent : (e : EventRow) → Keeps IsConsistent (insert_event_row e)
unfolding insert_event_row
insert_event_row-IsConsistent e = same_rows _ (λ db a db' h. ground arith)

insert_outbox_row-IsConsistent : (o : OutboxRow) → Keeps IsConsistent (insert_outbox_row o)
unfolding insert_outbox_row
insert_outbox_row-IsConsistent o = same_rows _ (λ db a db' h. ground arith)

ruleset consistent_rules = (
  keeps_rules, insert_row-IsConsistent, update_row-IsConsistent, insert_key_row-IsConsistent,
  insert_event_row-IsConsistent, insert_outbox_row-IsConsistent,
)

append_event-IsConsistent :
    (env : Env) (tenant : Uuid) (a : Appointment) (event_name outbox_type : String)
    → Keeps IsConsistent (append_event env tenant a event_name outbox_type)
unfolding append_event
append_event-IsConsistent env tenant a event_name outbox_type = search consistent_rules depth 12

keep_key-IsConsistent :
    (env : Env) (tenant : Uuid) (b : Booking) → Keeps IsConsistent (keep_key env tenant b)
unfolding keep_key
keep_key-IsConsistent env tenant b = search consistent_rules

insert_new-IsConsistent :
    (env : Env) (tenant : Uuid) (b : Booking) → Keeps IsConsistent (insert_new env tenant b)
unfolding insert_new
insert_new-IsConsistent env tenant b =
    search (consistent_rules, append_event-IsConsistent, keep_key-IsConsistent) depth 12

replay_key-IsConsistent :
    (env : Env) (tenant : Uuid) (f : String) (k : KeyRow)
    → Keeps IsConsistent (replay_key env tenant f k)
unfolding replay_key
replay_key-IsConsistent env tenant f k = search consistent_rules depth 12

transition_body-IsConsistent :
    (env : Env) (tenant id : Uuid) (to : String)
    → Keeps IsConsistent (transition_body env tenant id to)
unfolding transition_body
transition_body-IsConsistent env tenant id to =
    search (consistent_rules, append_event-IsConsistent) depth 16

reschedule_body-IsConsistent :
    (env : Env) (tenant id : Uuid) (start_at end_at occupied_start_at occupied_end_at : Time)
    → Keeps IsConsistent
        (reschedule_body env tenant id start_at end_at occupied_start_at occupied_end_at)
unfolding reschedule_body
reschedule_body-IsConsistent env tenant id start_at end_at occupied_start_at occupied_end_at =
    search (consistent_rules, append_event-IsConsistent) depth 16

replay_or_insert-IsConsistent :
    (env : Env) (tenant : Uuid) (b : Booking) (found : Option KeyRow)
    → Keeps IsConsistent (replay_or_insert env tenant b found)
unfolding replay_or_insert
replay_or_insert-IsConsistent env tenant b none = insert_new-IsConsistent env tenant b
replay_or_insert-IsConsistent env tenant b (some k) =
    replay_key-IsConsistent env tenant b.fingerprint k

create_body-IsConsistent :
    (env : Env) (tenant : Uuid) (b : Booking) → Keeps IsConsistent (create_body env tenant b)
unfolding create_body
create_body-IsConsistent env tenant b =
    search (keeps_rules, insert_new-IsConsistent, replay_or_insert-IsConsistent) depth 12

-- One transaction that changes bookings.
pub data Step (db : Db) : Db → Type 0 where
  creates : (env : Env) (tenant : Uuid) (b : Booking) → Step db (create env tenant b db).1
  transitions_to :
      (env : Env) (tenant id : Uuid) (to : String) → Step db (transition env tenant id to db).1
  moves :
      (env : Env) (tenant id : Uuid) (start_at end_at occupied_start_at occupied_end_at : Time)
      → Step db (reschedule env tenant id start_at end_at occupied_start_at occupied_end_at db).1

-- The tables that transactions reach from empty ones, in any order and with any failures.
pub data Reached : Db → Type 0 where
  fresh : Reached empty
  after : {db db' : Db} → Reached db → Step db db' → Reached db'

Step-IsConsistent : {db db' : Db} → Step db db' → IsConsistent db → IsConsistent db'
Step-IsConsistent {db} (creates env tenant b) h =
    unfold create in Keeps-with_tenant_tx env _ db (create_body-IsConsistent env tenant b) h
Step-IsConsistent {db} (transitions_to env tenant id to) h =
    unfold transition in
    Keeps-with_tenant_tx env _ db (transition_body-IsConsistent env tenant id to) h
Step-IsConsistent {db} (moves env tenant id start_at end_at occupied_start_at occupied_end_at) h =
    unfold reschedule in
    Keeps-with_tenant_tx env _ db
      (reschedule_body-IsConsistent env tenant id start_at end_at occupied_start_at occupied_end_at)
      h

pub Reached-IsConsistent : {db : Db} → Reached db → IsConsistent db
Reached-IsConsistent fresh = record { checked = tt; apart = tt }
Reached-IsConsistent (after r st) = Step-IsConsistent st (Reached-IsConsistent r)

Apart-rows :
    (rows : List Row) (r s : Row)
    → Apart rows
    → In r rows
    → In s rows
    → (r.id == s.id) ≡ false
    → excludes r s ≡ false
Apart-rows [] r s h m n ne = elim m [ ]
Apart-rows (t ∷ rest) r s h (here e) (here e') ne = absurd (cc (rw (e, e') at ne, ==_refl t.id))
Apart-rows (t ∷ rest) r s h (here e) (there n) ne = rw e (All-In (AreApart t) rest h.0 n).1
Apart-rows (t ∷ rest) r s h (there m) (here e) ne =
    rw (e, excludes_comm r t) (All-In (AreApart t) rest h.0 m).1
Apart-rows (t ∷ rest) r s h (there m) (there n) ne = Apart-rows rest r s h.1 m n ne

meets :
    (r s : Row)
    → excludes r s ≡ false
    → r.tenant_id ≡ s.tenant_id
    → r.barber_id ≡ s.barber_id
    → is_active r.status ≡ true
    → is_active s.status ≡ true
    → (r.occupied_end_at ≤ℤ s.occupied_start_at) ⊎ (s.occupied_end_at ≤ℤ r.occupied_start_at)
unfolding excludes
meets r s h t b p q = ground arith

ids_differ : (a b : Uuid) → a ≢ b → (a == b) ≡ false
ids_differ a b h = ground arith

-- No double booking. In tables reached from empty ones by any sequence of Create, Transition and
-- Reschedule, whichever of their statements fail, two different appointments of one tenant and one
-- barber that are both pending or confirmed have occupied ranges that do not meet.
pub no_double_booking :
    {db : Db} (r s : Row)
    → Reached db
    → In r db.appointments
    → In s db.appointments
    → r.id ≢ s.id
    → r.tenant_id ≡ s.tenant_id
    → r.barber_id ≡ s.barber_id
    → is_active r.status ≡ true
    → is_active s.status ≡ true
    → (r.occupied_end_at ≤ℤ s.occupied_start_at) ⊎ (s.occupied_end_at ≤ℤ r.occupied_start_at)
no_double_booking {db} r s reached m n ne t b p q =
    meets r s
      (Apart-rows db.appointments r s (Reached-IsConsistent reached).apart m n
        (ids_differ r.id s.id ne))
      t b p q
