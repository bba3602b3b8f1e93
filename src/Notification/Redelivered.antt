-- ===== src/Notification/Redelivered.antt =====
-- services/notification-service/internal/consumer/consumer.go: a message that is handled again.
pub mod Twice
pub mod Again
use shearix_platform.Shared.{
  ℕ, String, Bool, true, false, ◌&&◌, ◌||◌, not, ◌≡◌, refl, sym, subst, ◌∙◌, Option, none, some,
  List, [], ◌∷◌, In, here, there, any, str_eq, ◌==◌, ==_refl, Result, ok, err, Bool-cases,
  Option-cases, inl, inr, if◌then◌else◌, ℤ, arith,
}
use shearix_platform.Shared.Actions.{
  Action, Gives, ◌>>=◌, ◌>>◌, go_on, done, must, fail, stop_if, query, write, >>=-Gives,
}
use shearix_platform.GoTime.{Time, after}
use shearix_platform.Platform.Ids.{Uuid}
use shearix_platform.Platform.Transactions.{Keeps, transaction, atomic, rolled_back}
use shearix_platform.Platform.Transactions.Keeping.{keeps_rules}
use shearix_platform.Notification.Store.{
  NoticeEvent, Notice, NoticeError, Env, known_kind, same_notice,
}
use shearix_platform.Notification.Repository.{
  sent, in_tenant_tx, update_notices, new_notice, insert_row, insert_new, plan_body, plan,
  is_waiting_reminder, cancelled_notice, cancel_body, cancel_reminders,
}
use text.Mathlib.TextEquality.{eq_iff}

-- There is a notice of the event and kind for the tenant.
abbrev pub Has : Uuid → Uuid → String → List Notice → Type 0
Has tenant event kind rows = any (same_notice tenant event kind) rows ≡ true

-- The new notice is one of its event and kind.
new_notice_same :
    (env : Env) (tenant : Uuid) (e : NoticeEvent) (kind recipient template language : String)
    (scheduled : Time)
    → same_notice tenant e.event_id kind
        (new_notice env tenant e kind recipient template language scheduled)
      ≡ true
unfolding same_notice new_notice
new_notice_same env tenant e kind recipient template language scheduled =
    ground (arith, (eq_iff kind kind).1 refl)

-- Where there is one already, Plan changes nothing.
pub plan_same :
    (env : Env) (tenant : Uuid) (e : NoticeEvent) (kind recipient template language : String)
    (scheduled : Time) (rows : List Notice)
    → Has tenant e.event_id kind rows
    → (plan env tenant e kind recipient template language scheduled rows).1 ≡ rows
unfolding plan plan_body insert_new new_notice in_tenant_tx transaction atomic rolled_back sent
    ◌>>=◌ ◌>>◌ go_on stop_if query done
plan_same env tenant e kind recipient template language scheduled rows h = ground arith

-- After Plan there is one.
pub plan-Has :
    (env : Env) (tenant : Uuid) (e : NoticeEvent) (kind recipient template language : String)
    (scheduled : Time) (rows : List Notice) (b : Bool)
    → Gives (plan env tenant e kind recipient template language scheduled) rows b
    → Has tenant e.event_id kind
        (plan env tenant e kind recipient template language scheduled rows).1
unfolding plan plan_body insert_new insert_row any in_tenant_tx transaction atomic rolled_back sent
    ◌>>=◌ ◌>>◌ go_on stop_if query write done
plan-Has env tenant e kind recipient template language scheduled rows b h =
    ground (arith, new_notice_same env tenant e kind recipient template language scheduled)

-- Planning takes no notice away.
pub plan_keeps :
    (env : Env) (tenant : Uuid) (e : NoticeEvent) (kind recipient template language : String)
    (scheduled : Time) (rows : List Notice) (t v : Uuid) (k : String)
    → Has t v k rows
    → Has t v k (plan env tenant e kind recipient template language scheduled rows).1
unfolding plan plan_body insert_new insert_row any in_tenant_tx transaction atomic rolled_back sent
    ◌>>=◌ ◌>>◌ go_on stop_if query write done
plan_keeps env tenant e kind recipient template language scheduled rows t v k h = ground arith

update_notices-Has :
    (p : Notice → Bool) (rows : List Notice) (t v : Uuid) (k : String)
    → Has t v k rows
    → Has t v k (update_notices p cancelled_notice rows)
unfolding update_notices any same_notice
update_notices-Has p [] t v k h = h
update_notices-Has p (n ∷ rows) t v k h = ground (arith, update_notices-Has p rows t v k)

pub cancel_reminders_keeps :
    (env : Env) (tenant appointment : Uuid) (rows : List Notice) (t v : Uuid) (k : String)
    → Has t v k rows
    → Has t v k (cancel_reminders env tenant appointment rows).1
unfolding cancel_reminders cancel_body in_tenant_tx transaction atomic rolled_back sent ◌>>=◌ ◌>>◌
    go_on stop_if write done
cancel_reminders_keeps env tenant appointment rows t v k h =
    ground (arith, update_notices-Has (is_waiting_reminder tenant appointment) rows t v k h)

pub cancel_reminders-Gives :
    (env : Env) (tenant appointment : Uuid) (rows : List Notice) (u : Unit {0})
    → Gives (cancel_reminders env tenant appointment) rows u
    → (cancel_reminders env tenant appointment rows).1
      ≡ update_notices (is_waiting_reminder tenant appointment) cancelled_notice rows
unfolding cancel_reminders cancel_body in_tenant_tx transaction atomic rolled_back sent ◌>>=◌ ◌>>◌
    go_on stop_if write done
cancel_reminders-Gives env tenant appointment rows u h = ground arith

cancelled_waits :
    (tenant appointment : Uuid) (n : Notice)
    → is_waiting_reminder tenant appointment (cancelled_notice n) ≡ false
unfolding is_waiting_reminder
cancelled_waits tenant appointment n = ground arith

-- None waits after they were cancelled.
pub none_waits :
    (tenant appointment : Uuid) (rows : List Notice)
    → any
        (is_waiting_reminder tenant appointment)
        (update_notices (is_waiting_reminder tenant appointment) cancelled_notice rows)
      ≡ false
unfolding update_notices any
none_waits tenant appointment [] = refl
none_waits tenant appointment (n ∷ rows) =
    elim (Bool-cases (is_waiting_reminder tenant appointment n)) [
      | inl e ↦
          ground
            (arith, e, cancelled_waits tenant appointment n, none_waits tenant appointment rows)
      | inr e ↦ ground (arith, e, none_waits tenant appointment rows)
    ]
