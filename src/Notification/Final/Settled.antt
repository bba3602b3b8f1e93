-- ===== src/Notification/Final/Settled.antt =====
-- services/notification-service: a notice that is sent or cancelled, under any messages and rounds.
use shearix_platform.Shared.{
  ℕ, String, Bool, true, false, ◌&&◌, Option, none, some, List, [], ◌∷◌, leb, Result, ok, err,
  Bool-cases, inl, inr, ℤ,
}
use shearix_platform.Shared.Actions.{done}
use shearix_platform.GoTime.{Time, after}
use shearix_platform.Platform.Transactions.{Keeps}
use shearix_platform.Platform.Transactions.Keeping.{keeps_rules, Keeps->>=}
use shearix_platform.Notification.Store.{NoticeEvent, Notice, Claimed, NoticeError, Env}
use shearix_platform.Notification.Consumer.{
  Planner, lookup, or_blank, map_type, reminder_event, remind_at, plan_reminder, plan_reminders,
  cancel_if, remind_if, notify, handle_known, handle, unattributed, fail_known, mark_terminal,
  replied, consume,
}
use shearix_platform.Notification.Worker.{
  Outcome, accepted, temporary, permanent, next_attempt, settle, settle_all, settle_claimed, once,
}
use shearix_platform.Notification.Final.{
  Stands, IsFinal, plan-Keeps, cancel_reminders-Keeps, record_failure-Keeps, finish-Keeps,
  claim-Keeps,
}

module _ (r : Notice) (final : IsFinal r) where
  plan_reminder-Keeps :
      (env : Env) (c : Planner) (e : NoticeEvent) (recipient : String) (start : Time) (off : ℤ)
      (b : Bool)
      → Keeps (Stands r) (plan_reminder env c e recipient start off b)
  unfolding plan_reminder
  plan_reminder-Keeps env c e recipient start off false = search keeps_rules
  plan_reminder-Keeps env c e recipient start off true =
      plan-Keeps r final env e.tenant_id (reminder_event c e off) "appointment_reminder" recipient
        (or_blank (lookup "appointment.reminder_due" c.templates)) c.language (remind_at start off)

  plan_reminders-Keeps :
      (env : Env) (c : Planner) (e : NoticeEvent) (recipient : String) (start : Time)
      (offsets : List ℤ)
      → Keeps (Stands r) (plan_reminders env c e recipient start offsets)
  unfolding plan_reminders
  plan_reminders-Keeps env c e recipient start [] = search keeps_rules
  plan_reminders-Keeps env c e recipient start (off ∷ rest) =
      Keeps->>= (Stands r)
        (plan_reminder env c e recipient start off (after (remind_at start off) env.now))
        (λ created. plan_reminders env c e recipient start rest)
        (plan_reminder-Keeps env c e recipient start off _)
        (λ created. plan_reminders-Keeps env c e recipient start rest)

  cancel_if-Keeps : (env : Env) (e : NoticeEvent) (b : Bool) → Keeps (Stands r) (cancel_if env e b)
  unfolding cancel_if
  cancel_if-Keeps env e false = search keeps_rules
  cancel_if-Keeps env e true = cancel_reminders-Keeps r final env e.tenant_id e.aggregate_id

  remind_if-Keeps :
      (env : Env) (c : Planner) (e : NoticeEvent) (recipient : String) (b : Bool)
      → Keeps (Stands r) (remind_if env c e recipient b)
  unfolding remind_if
  remind_if-Keeps env c e recipient false = search keeps_rules
  remind_if-Keeps env c e recipient true = search (keeps_rules, plan_reminders-Keeps)

  notify-Keeps :
      (env : Env) (c : Planner) (e : NoticeEvent) (template recipient : String)
      → Keeps (Stands r) (notify env c e template recipient)
  unfolding notify
  notify-Keeps env c e template recipient =
      search (keeps_rules, plan-Keeps r final, cancel_if-Keeps, remind_if-Keeps) depth 10

  handle_known-Keeps :
      (env : Env) (c : Planner) (e : NoticeEvent) (template : Option String)
      → Keeps (Stands r) (handle_known env c e template)
  unfolding handle_known
  handle_known-Keeps env c e none = search keeps_rules
  handle_known-Keeps env c e (some template) = search (keeps_rules, notify-Keeps)

  handle-Keeps :
      (env : Env) (c : Planner) (m : Option NoticeEvent) → Keeps (Stands r) (handle env c m)
  unfolding handle
  handle-Keeps env c none = search keeps_rules
  handle-Keeps env c (some e) = search (keeps_rules, handle_known-Keeps)

  fail_known-Keeps :
      (env : Env) (c : Planner) (e : NoticeEvent) (cause : NoticeError) (template : Option String)
      → Keeps (Stands r) (fail_known env c e cause template)
  unfolding fail_known
  fail_known-Keeps env c e cause none = search keeps_rules
  fail_known-Keeps env c e cause (some template) =
      record_failure-Keeps r final env e.tenant_id e (map_type c e.event_type) template c.language
        (c.error_text cause)

  mark_terminal-Stands :
      (env : Env) (c : Planner) (m : Option NoticeEvent) (cause : NoticeError) (rows : List Notice)
      → Stands r rows
      → Stands r (mark_terminal env c m cause rows).1
  unfolding mark_terminal done
  mark_terminal-Stands env c none cause rows s = s
  mark_terminal-Stands env c (some e) cause rows s = elim (Bool-cases (unattributed e)) [
    | inl t ↦ rw (t, mark_terminal) s
    | inr t ↦
        rw (t, mark_terminal)
          ((fail_known-Keeps env c e cause (lookup e.event_type c.templates)).at rows s)
  ]

  replied-Stands :
      (env : Env) (c : Planner) (m : Option NoticeEvent) (delivered : ℕ)
      (result : Result NoticeError (Unit {0})) (rows : List Notice)
      → Stands r rows
      → Stands r (replied env c m delivered result rows).1
  unfolding replied
  replied-Stands env c m delivered (ok u) rows s = s
  replied-Stands env c m delivered (err cause) rows s =
      elim (Bool-cases (leb 1 c.max_deliver && leb c.max_deliver delivered)) [
        | inl t ↦ rw (t, replied) (mark_terminal-Stands env c m cause rows s)
        | inr t ↦ rw (t, replied) s
      ]

  settle-Stands :
      (env : Env) (item : Claimed) (o : Outcome) (rows : List Notice)
      → Stands r rows
      → Stands r (settle env item o rows)
  unfolding settle
  settle-Stands env item (accepted message) rows s =
      (finish-Keeps r final env _ _ message "" none).at rows s
  settle-Stands env item temporary rows s =
      (finish-Keeps r final env _ _ "" "email delivery temporarily unavailable"
          (next_attempt env.now item.attempts)).at
        rows s
  settle-Stands env item permanent rows s =
      (finish-Keeps r final env _ _ "" "email delivery failed" none).at rows s

  settle_all-Stands :
      (envs : Claimed → Env) (over : Claimed → Bool) (send : Claimed → Outcome)
      (items : List Claimed) (rows : List Notice)
      → Stands r rows
      → Stands r (settle_all envs over send items rows)
  unfolding settle_all
  settle_all-Stands envs over send [] rows s = s
  settle_all-Stands envs over send (item ∷ rest) rows s = elim (Bool-cases (over item)) [
    | inl t ↦ rw (t, settle_all) s
    | inr t ↦
        rw (t, settle_all)
          (settle_all-Stands envs over send rest _
            (settle-Stands (envs item) item (send item) rows s))
  ]

  settle_claimed-Stands :
      (envs : Claimed → Env) (over : Claimed → Bool) (send : Claimed → Outcome)
      (result : Result NoticeError (List Claimed)) (rows : List Notice)
      → Stands r rows
      → Stands r (settle_claimed envs over send result rows)
  unfolding settle_claimed
  settle_claimed-Stands envs over send (err e) rows s = s
  settle_claimed-Stands envs over send (ok items) rows s =
      settle_all-Stands envs over send items rows s

-- What the service does, in any order: the consumer meets a message, or the worker makes a round.
pub data Activity : Type 0 where
  to_consume : Env → Planner → Option NoticeEvent → ℕ → Activity
  to_deliver : Env → (Claimed → Env) → (Claimed → Bool) → (Claimed → Outcome) → Activity

unfoldable pub act : Activity → List Notice → List Notice
unfolding consume once
act (to_consume env c m delivered) rows = (consume env c m delivered rows).1
act (to_deliver env envs over send) rows = once env envs over send rows

unfoldable pub act_all : List Activity → List Notice → List Notice
unfolding act
act_all [] rows = rows
act_all (a ∷ rest) rows = act_all rest (act a rows)

act-Stands :
    (r : Notice)
    → IsFinal r
    → (a : Activity) (rows : List Notice) → Stands r rows
    → Stands r (act a rows)
unfolding act consume once
act-Stands r final (to_consume env c m delivered) rows s =
    replied-Stands r final env c m delivered _ _ ((handle-Keeps r final env c m).at rows s)
act-Stands r final (to_deliver env envs over send) rows s =
    settle_claimed-Stands r final envs over send _ _ ((claim-Keeps r final env none 50).at rows s)

-- A notice that is sent or cancelled stays in the table as it is, in every column, whatever messages
-- the consumer meets and whatever rounds the worker makes, in any order and with any failures: it is
-- not claimed again, so it is not sent again.
pub act_all-Stands :
    (r : Notice)
    → IsFinal r
    → (activities : List Activity) (rows : List Notice) → Stands r rows
    → Stands r (act_all activities rows)
unfolding act_all
act_all-Stands r final [] rows s = s
act_all-Stands r final (a ∷ rest) rows s =
    act_all-Stands r final rest _ (act-Stands r final a rows s)
