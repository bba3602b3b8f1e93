-- ===== src/Notification/Repository.antt =====
-- services/notification-service/internal/repository/repository.go, with the functions of the
-- migrations that claim and finish notices.
pub mod Claims
use shearix_platform.Shared.{
  ℕ, ◌+◌, String, Bool, true, false, ◌&&◌, ◌||◌, not, Option, none, some, List, [], ◌∷◌, map, any,
  select, take, ltb, str_eq, ◌==◌, if◌then◌else◌, ℤ, pos,
}
use shearix_platform.Shared.Actions.{Action, ◌>>=◌, ◌>>◌, done, stop_if, query, write}
use shearix_platform.GoTime.{Time, add, before, after}
use shearix_platform.Platform.Ids.{Uuid}
use shearix_platform.Platform.Transactions.{transaction}
use shearix_platform.Notification.Store.{
  NoticeEvent, Notice, Claimed, NoticeError, invalid_recipient, failed, Stmt, begin_tx, commit_tx,
  insert_notice, insert_failure, cancel_notices, claim_notices, finish_notice, Env, known_kind,
  same_notice, is_open,
}

-- A statement is sent: it may fail.
unfoldable pub sent : Env → Stmt → Action NoticeError (List Notice) (Unit {0})
unfolding stop_if
sent env stmt = stop_if (env.fails stmt) failed

-- WithTenantTx
unfoldable pub in_tenant_tx :
    {A : Type 0} → Env → Action NoticeError (List Notice) A → Action NoticeError (List Notice) A
unfolding transaction
in_tenant_tx env body = transaction (env.fails begin_tx) (env.fails commit_tx) failed body

-- UPDATE ... SET ... WHERE ...
unfoldable pub update_notices : (Notice → Bool) → (Notice → Notice) → List Notice → List Notice
update_notices p f [] = []
update_notices p f (n ∷ rest) = (if p n then f n else n) ∷ update_notices p f rest

unfoldable pub new_notice :
    Env → Uuid → NoticeEvent → String → String → String → String → Time → Notice
new_notice env tenant e kind recipient template language scheduled = record {
  id = env.new_id e.event_id kind;
  tenant_id = tenant;
  event_id = e.event_id;
  appointment_id = e.aggregate_id;
  kind = kind;
  recipient = recipient;
  template = template;
  language = language;
  status = "pending";
  attempts = 0;
  message_id = none;
  scheduled_at = scheduled;
  next_attempt_at = scheduled;
  last_error = none;
  lease_until = none;
  claim_token = none;
}

-- INSERT INTO public.email_notifications, with the primary key.
unfoldable pub insert_row : Notice → Action NoticeError (List Notice) (Unit {0})
unfolding ◌>>=◌ ◌>>◌ stop_if query write
insert_row n = do
  clash ← query (λ rows. any (λ (m : Notice). m.id == n.id) rows)
  stop_if clash failed
  write (λ rows. n ∷ rows)

-- ON CONFLICT(tenant_id,event_id,notification_type) DO NOTHING: whether there was a row already.
unfoldable pub insert_new : Notice → Bool → Action NoticeError (List Notice) Bool
unfolding ◌>>◌ done insert_row
insert_new n true = done false
insert_new n false = do insert_row n; done true

unfoldable pub plan_body : Env → Notice → Action NoticeError (List Notice) Bool
unfolding ◌>>=◌ ◌>>◌ sent stop_if query known_kind same_notice insert_new
plan_body env n = do
  sent env insert_notice
  stop_if (not (known_kind n.kind)) failed
  there ← query (λ rows. any (same_notice n.tenant_id n.event_id n.kind) rows)
  insert_new n there

-- The method Plan, which answers whether a notice was created.
unfoldable pub plan :
    Env
    → Uuid
    → NoticeEvent
    → String
    → String
    → String
    → String
    → Time
    → Action NoticeError (List Notice) Bool
unfolding ◌>>◌ stop_if in_tenant_tx plan_body new_notice
plan env tenant e kind recipient template language scheduled = do
  stop_if (str_eq recipient "") invalid_recipient
  in_tenant_tx env
      (plan_body env (new_notice env tenant e kind recipient template language scheduled))

abbrev pub failed_notice : String → Notice → Notice
failed_notice reason n = record n { status = "failed"; last_error = some reason }

-- INSERT ... ON CONFLICT ... DO UPDATE ... WHERE status NOT IN ('sent','cancelled')
unfoldable pub upsert_failure : Notice → String → Bool → Action NoticeError (List Notice) (Unit {0})
unfolding write same_notice is_open update_notices insert_row
upsert_failure n reason true = write (
    update_notices (λ m. same_notice n.tenant_id n.event_id n.kind m && is_open m)
      (failed_notice reason))
upsert_failure n reason false = insert_row (failed_notice reason n)

-- Fail, with the placeholder in place of a recipient.
unfoldable pub record_failure :
    Env
    → Uuid
    → NoticeEvent
    → String
    → String
    → String
    → String
    → Action NoticeError (List Notice) (Unit {0})
unfolding ◌>>=◌ ◌>>◌ sent stop_if query known_kind same_notice upsert_failure in_tenant_tx
    new_notice
record_failure env tenant e kind template language reason = in_tenant_tx env do
  sent env insert_failure
  stop_if (not (known_kind kind)) failed
  there ← query (λ rows. any (same_notice tenant e.event_id kind) rows)
  upsert_failure
      (new_notice env tenant e kind "undeliverable@notification-service.invalid" template language
        env.now)
      reason there

-- A reminder of the appointment that waits to be sent.
unfoldable pub is_waiting_reminder : Uuid → Uuid → Notice → Bool
is_waiting_reminder tenant appointment n =
    n.tenant_id == tenant
    && n.appointment_id == appointment
    && str_eq n.kind "appointment_reminder"
    && str_eq n.status "pending"

abbrev pub cancelled_notice : Notice → Notice
cancelled_notice n = record n { status = "cancelled" }

unfoldable pub cancel_body : Env → Uuid → Uuid → Action NoticeError (List Notice) (Unit {0})
unfolding ◌>>◌ sent write update_notices is_waiting_reminder
cancel_body env tenant appointment = do
  sent env cancel_notices
  write (update_notices (is_waiting_reminder tenant appointment) cancelled_notice)

-- CancelReminders
unfoldable pub cancel_reminders : Env → Uuid → Uuid → Action NoticeError (List Notice) (Unit {0})
unfolding in_tenant_tx cancel_body
cancel_reminders env tenant appointment = in_tenant_tx env (cancel_body env tenant appointment)
