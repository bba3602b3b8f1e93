-- ===== src/Appointment/Outbox.antt =====
-- services/appointment-service: the outbox. The functions claim_outbox_events, release_outbox_event
-- and mark_outbox_event_published of the migrations, their callers in internal/repository/
-- repository.go, lines 262-292, and publishBatch and publishOne of internal/outbox/publisher.go.
pub mod Bounded
pub mod Claimed
use shearix_platform.Shared.{
  ℕ, ◌+◌, Bool, true, false, ◌&&◌, ◌||◌, not, Option, none, some, List, [], ◌∷◌, map, any, first,
  select, take, leb, ltb, ◌==◌, Result, ok, err, ℤ, pos, ◌-ℤ◌, if◌then◌else◌,
}
use shearix_platform.GoTime.{Time, before}
use shearix_platform.Platform.Ids.{Uuid}
use shearix_platform.Appointment.Domain.{OutboxEvent}
use shearix_platform.Appointment.Store.{OutboxRow, Db, RepoError, no_rows, database}

-- interval '1 minute'
abbrev claim_time : ℤ
claim_time = pos 60000000000

abbrev pub is_null : Option Time → Bool
is_null none = true
is_null (some t) = false

-- publishing_at IS NULL OR publishing_at < clock_timestamp() - interval '1 minute'
unfoldable pub is_released : Time → Option Time → Bool
is_released now none = true
is_released now (some t) = before t (now -ℤ claim_time)

-- The WHERE clause of claim_outbox_events.
unfoldable pub is_claimable : Time → OutboxRow → Bool
unfolding is_released
is_claimable now r =
    is_null r.published_at && is_null r.failed_at && is_released now r.publishing_at

-- ORDER BY created_at
unfoldable pub insert_by_age : OutboxRow → List OutboxRow → List OutboxRow
insert_by_age r [] = r ∷ []
insert_by_age r (s ∷ rest) =
    if before s.created_at r.created_at then s ∷ insert_by_age r rest else r ∷ s ∷ rest

unfoldable pub by_age : List OutboxRow → List OutboxRow
unfolding insert_by_age
by_age [] = []
by_age (r ∷ rest) = insert_by_age r (by_age rest)

-- LEAST(GREATEST(p_limit, 1), 100)
unfoldable pub clamp : ℕ → ℕ
clamp n = if ltb n 1 then 1 else if ltb 100 n then 100 else n

-- The rows of a claim.
unfoldable pub candidates : Time → ℕ → List OutboxRow → List OutboxRow
unfolding is_claimable by_age clamp
candidates now limit rows = take (clamp limit) (by_age (select (is_claimable now) rows))

-- UPDATE public.outbox_events SET ... WHERE ...
unfoldable pub update_where :
    (OutboxRow → Bool) → (OutboxRow → OutboxRow) → List OutboxRow → List OutboxRow
update_where p f [] = []
update_where p f (r ∷ rest) = (if p r then f r else r) ∷ update_where p f rest

abbrev pub event_of : OutboxRow → OutboxEvent
event_of r = record {
  id = r.id;
  tenant_id = r.tenant_id;
  aggregate_id = r.aggregate_id;
  kind = r.kind;
  payload = r.payload;
  occurred_at = r.created_at;
}

abbrev with_outbox : List OutboxRow → Db → Db
with_outbox rows db = record db { outbox = rows }

abbrev pub claimed_row : Time → OutboxRow → OutboxRow
claimed_row now r = record r { publishing_at = some now }

abbrev pub published_row : Time → OutboxRow → OutboxRow
published_row now r = record r { published_at = some now; publishing_at = none }

-- SET publishing_at = NULL, publish_attempts = publish_attempts + 1, failed_at = CASE ...
abbrev pub released_row : Time → OutboxRow → OutboxRow
released_row now r = record r {
  publishing_at = none;
  publish_attempts = r.publish_attempts + 1;
  failed_at = if leb 20 (r.publish_attempts + 1) then some now else r.failed_at;
}

-- WHERE id = p_id AND published_at IS NULL
unfoldable pub is_open : Uuid → OutboxRow → Bool
is_open id r = r.id == id && is_null r.published_at

-- claim_outbox_events and ClaimOutbox
unfoldable pub claim_outbox : Time → ℕ → Db → List OutboxEvent × Db
unfolding candidates update_where
claim_outbox now limit db =
    let chosen = candidates now limit db.outbox in
    (
      map event_of chosen,
      with_outbox
          (update_where (λ r. any (λ (c : OutboxRow). c.id == r.id) chosen) (claimed_row now)
            db.outbox)
          db,
    )

-- mark_outbox_event_published and MarkOutboxPublished
unfoldable pub mark_outbox_published : Time → Uuid → Db → Db
unfolding update_where is_open
mark_outbox_published now id db =
    with_outbox (update_where (is_open id) (published_row now) db.outbox) db

-- release_outbox_event and ReleaseOutbox: the attempts and whether the row is terminal, `none` if no
-- row was updated.
unfoldable pub release_outbox : Time → Uuid → Db → Option (ℕ × Bool) × Db
unfolding update_where is_open
release_outbox now id db =
    let rows = update_where (is_open id) (released_row now) db.outbox in
    (
      elim (first (is_open id) rows) [
        | none ↦ none
        | some r ↦ some (r.publish_attempts, not (is_null r.failed_at))
      ],
      with_outbox rows db,
    )

-- What one publication meets: whether the broker takes the event, whether the statement that follows
-- fails, and the time.
pub record Attempt : Type 0 where
  pub delivered : Bool
  pub statement_fails : Bool
  pub now : Time

-- publishOne: the tables that it leaves.
unfoldable pub publish_one : Attempt → OutboxEvent → Db → Db
unfolding mark_outbox_published release_outbox
publish_one a e db =
    if a.statement_fails
    then db
    else if a.delivered
    then mark_outbox_published a.now e.id db
    else (release_outbox a.now e.id db).1

unfoldable pub publish_all : (OutboxEvent → Attempt) → List OutboxEvent → Db → Db
unfolding publish_one
publish_all attempt [] db = db
publish_all attempt (e ∷ rest) db = publish_all attempt rest (publish_one (attempt e) e db)

-- publishBatch; `claim_fails` says that the claim failed.
unfoldable pub publish_batch : Bool → Time → (OutboxEvent → Attempt) → Db → Db
unfolding claim_outbox publish_all
publish_batch claim_fails now attempt db =
    if claim_fails
    then db
    else (let (events, db') = claim_outbox now 50 db in publish_all attempt events db')
