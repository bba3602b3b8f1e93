-- ===== src/Notification/Redelivered/Twice.antt =====
-- services/notification-service/internal/consumer/consumer.go: one event delivered twice.
use shearix_platform.Shared.{
  String, Bool, true, false, ◌≡◌, refl, sym, subst, some, List, [], ◌∷◌, In, here, there,
  if◌then◌else◌, ℤ, arith,
}
use shearix_platform.Shared.Actions.{Gives, done, >>=-Gives}
use shearix_platform.GoTime.{Time, after, before}
use shearix_platform.Platform.Ids.{Uuid}
use shearix_platform.Platform.Transactions.Keeping.{bind-Leaves}
use shearix_platform.Notification.Store.{NoticeEvent, Notice, Env}
use shearix_platform.Notification.Repository.{update_notices, is_waiting_reminder, cancelled_notice}
use shearix_platform.Notification.Consumer.{
  Planner, lookup, or_blank, map_type, reminder_event, remind_at, plan_reminder, plan_reminders,
  cancel_if, has_reminders,
}
use shearix_platform.Notification.Redelivered.{
  Has, plan_same, plan-Has, plan_keeps, cancel_reminders_keeps, cancel_reminders-Gives,
}

-- There is the reminder of an event at an offset.
abbrev pub HasReminder : Planner → NoticeEvent → ℤ → List Notice → Type 0
HasReminder c e off rows =
    Has e.tenant_id (c.reminder_id e.event_id off) "appointment_reminder" rows

-- Every reminder that is still to come is there.
abbrev pub HasReminders : Time → Planner → NoticeEvent → Time → List ℤ → List Notice → Type 0
HasReminders now c e start offsets rows =
    (off : ℤ) → In off offsets → after (remind_at start off) now ≡ true → HasReminder c e off rows

plan_reminder_keeps :
    (env : Env) (c : Planner) (e : NoticeEvent) (recipient : String) (start : Time) (off : ℤ)
    (b : Bool) (rows : List Notice) (t v : Uuid) (k : String)
    → Has t v k rows
    → Has t v k (plan_reminder env c e recipient start off b rows).1
unfolding plan_reminder done
plan_reminder_keeps env c e recipient start off false rows t v k h = h
plan_reminder_keeps env c e recipient start off true rows t v k h =
    plan_keeps env e.tenant_id (reminder_event c e off) "appointment_reminder" recipient
      (or_blank (lookup "appointment.reminder_due" c.templates)) c.language (remind_at start off)
      rows t v k h

pub plan_reminders_keeps :
    (env : Env) (c : Planner) (e : NoticeEvent) (recipient : String) (start : Time)
    (offsets : List ℤ) (rows : List Notice) (t v : Uuid) (k : String)
    → Has t v k rows
    → Has t v k (plan_reminders env c e recipient start offsets rows).1
unfolding plan_reminders done
plan_reminders_keeps env c e recipient start [] rows t v k h = h
plan_reminders_keeps env c e recipient start (off ∷ rest) rows t v k h =
    let b = after (remind_at start off) env.now in
    let kept = plan_reminder_keeps env c e recipient start off b rows t v k h in
    bind-Leaves (Has t v k) (plan_reminder env c e recipient start off b)
      (λ created. plan_reminders env c e recipient start rest) rows kept
      (λ created g. plan_reminders_keeps env c e recipient start rest _ t v k kept)

plan_reminder-Has :
    (env : Env) (c : Planner) (e : NoticeEvent) (recipient : String) (start : Time) (off : ℤ)
    (b : Bool) (rows : List Notice) (made : Bool)
    → Gives (plan_reminder env c e recipient start off b) rows made
    → b ≡ true
    → HasReminder c e off (plan_reminder env c e recipient start off b rows).1
unfolding plan_reminder
plan_reminder-Has env c e recipient start off false rows made h t = absurd (cc)
plan_reminder-Has env c e recipient start off true rows made h t =
    plan-Has env e.tenant_id (reminder_event c e off) "appointment_reminder" recipient
      (or_blank (lookup "appointment.reminder_due" c.templates)) c.language (remind_at start off)
      rows made h

pub plan_reminders-Has :
    (env : Env) (c : Planner) (e : NoticeEvent) (recipient : String) (start : Time)
    (offsets : List ℤ) (rows : List Notice) (u : Unit {0})
    → Gives (plan_reminders env c e recipient start offsets) rows u
    → HasReminders env.now c e start offsets (plan_reminders env c e recipient start offsets rows).1
unfolding plan_reminders
plan_reminders-Has env c e recipient start [] rows u h off m t = elim m [ ]
plan_reminders-Has env c e recipient start (x ∷ rest) rows u h off m t =
    let b = after (remind_at start x) env.now in
    let op = plan_reminder env c e recipient start x b in
    let (made, g, later, left) =
      >>=-Gives op (λ created. plan_reminders env c e recipient start rest) rows u h in
    subst (HasReminder c e off) (sym left) (
      found (op rows).1 m
        (λ same.
          plan_reminder-Has env c e recipient start x b rows made g
            (subst (λ o. after (remind_at start o) env.now ≡ true) same t))
        (λ i. plan_reminders-Has env c e recipient start rest (op rows).1 u later off i t))
  where
    found :
        (left : List Notice)
        → In off (x ∷ rest)
        → (off ≡ x → HasReminder c e x left)
        → (In off rest → HasReminder c e off (plan_reminders env c e recipient start rest left).1)
        → HasReminder c e off (plan_reminders env c e recipient start rest left).1
    found left (there i) new old = old i
    found left (here same) new old =
        plan_reminders_keeps env c e recipient start rest left _ _ _
          (subst (λ o. HasReminder c e o left) (sym same) (new same))

plan_reminder_same :
    (env : Env) (c : Planner) (e : NoticeEvent) (recipient : String) (start : Time) (off : ℤ)
    (b : Bool) (rows : List Notice)
    → (b ≡ true → HasReminder c e off rows)
    → (plan_reminder env c e recipient start off b rows).1 ≡ rows
unfolding plan_reminder done
plan_reminder_same env c e recipient start off false rows h = refl
plan_reminder_same env c e recipient start off true rows h =
    plan_same env e.tenant_id (reminder_event c e off) "appointment_reminder" recipient
      (or_blank (lookup "appointment.reminder_due" c.templates)) c.language (remind_at start off)
      rows (h refl)

pub plan_reminders_same :
    (env : Env) (c : Planner) (e : NoticeEvent) (recipient : String) (start : Time)
    (offsets : List ℤ) (rows : List Notice)
    → HasReminders env.now c e start offsets rows
    → (plan_reminders env c e recipient start offsets rows).1 ≡ rows
unfolding plan_reminders done
plan_reminders_same env c e recipient start [] rows h = refl
plan_reminders_same env c e recipient start (off ∷ rest) rows h =
    let b = after (remind_at start off) env.now in
    let op = plan_reminder env c e recipient start off b in
    let same : (op rows).1 ≡ rows =
      plan_reminder_same env c e recipient start off b rows (λ t. h off (here refl) t) in
    bind-Leaves (λ s. s ≡ rows) op (λ created. plan_reminders env c e recipient start rest) rows
      same
      (λ created g.
        subst (λ s. (plan_reminders env c e recipient start rest s).1 ≡ rows) (sym same)
          (plan_reminders_same env c e recipient start rest rows (λ o m t. h o (there m) t)))

-- A later time leaves fewer reminders to come.
pub later_after :
    (now later t : Time) → before later now ≡ false → after t later ≡ true → after t now ≡ true
later_after now later t h a = ground arith

-- What a handled event leaves in the table.
pub record Planned (env : Env) (c : Planner) (e : NoticeEvent) (rows : List Notice) : Type 0 where
  pub main : Has e.tenant_id e.event_id (map_type c e.event_type) rows
  pub reminders :
      has_reminders c e ≡ true
      → (offsets : List ℤ) → c.offsets e.tenant_id ≡ some offsets
      → HasReminders env.now c e (c.start_at e.payload) offsets rows

pub cancel_if_keeps :
    (env : Env) (e : NoticeEvent) (b : Bool) (rows : List Notice) (t v : Uuid) (k : String)
    → Has t v k rows
    → Has t v k (cancel_if env e b rows).1
unfolding cancel_if done
cancel_if_keeps env e false rows t v k h = h
cancel_if_keeps env e true rows t v k h =
    cancel_reminders_keeps env e.tenant_id e.aggregate_id rows t v k h

-- The reminders of the appointment that waited are cancelled, if `b` says so.
abbrev pub dropped : NoticeEvent → Bool → List Notice → List Notice
dropped e b rows =
    if b
    then update_notices (is_waiting_reminder e.tenant_id e.aggregate_id) cancelled_notice rows
    else rows

pub cancel_if-dropped :
    (env : Env) (e : NoticeEvent) (b : Bool) (rows : List Notice) (u : Unit {0})
    → Gives (cancel_if env e b) rows u
    → (cancel_if env e b rows).1 ≡ dropped e b rows
unfolding cancel_if done
cancel_if-dropped env e false rows u h = refl
cancel_if-dropped env e true rows u h =
    cancel_reminders-Gives env e.tenant_id e.aggregate_id rows u h
