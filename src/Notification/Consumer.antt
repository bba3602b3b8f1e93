-- ===== src/Notification/Consumer.antt =====
-- services/notification-service/internal/consumer/consumer.go: what one delivered message does.
use shearix_platform.Shared.{
  ℕ, String, Bool, true, false, ◌&&◌, ◌||◌, not, Option, none, some, List, [], ◌∷◌, str_eq, leb,
  Result, ok, err, if◌then◌else◌, ℤ, pos, eqb_ℤ,
}
use shearix_platform.Shared.Actions.{Action, ◌>>=◌, ◌>>◌, done, fail, stop_if, must}
use shearix_platform.GoTime.{Time, add, after, is_zero, negate}
use shearix_platform.Platform.Ids.{Uuid, is_nil}
use shearix_platform.Notification.Store.{
  NoticeEvent, Notice, NoticeError, malformed, no_resolver, unresolved, no_offsets, Env,
}
use shearix_platform.Notification.Repository.{plan, cancel_reminders, record_failure}

-- What the consumer is built with, and its surroundings at one delivery: the templates and their
-- language; the appointment service's answer for a recipient (`none`: no resolver; `err`: an error);
-- the tenant service's reminder offsets; strings.ReplaceAll; json.Unmarshal of a payload's start_at
-- (the zero time if it has none); uuid.NewSHA1 of an event and an offset's text; the text of an error.
pub record Planner : Type 0 where
  pub templates : List (String × String)
  pub language : String
  pub recipients : Option (Uuid → Uuid → Option String)
  pub offsets : Uuid → Option (List ℤ)
  pub replace_all : String → String → String → String
  pub start_at : String → Time
  pub reminder_id : Uuid → ℤ → Uuid
  pub error_text : NoticeError → String
  pub max_deliver : ℕ

-- c.templates[type]
unfoldable pub lookup : String → List (String × String) → Option String
lookup k [] = none
lookup k ((t, v) ∷ rest) = let later = lookup k rest in if str_eq k t then some v else later

abbrev pub or_blank : Option String → String
or_blank none = ""
or_blank (some t) = t

-- mapType
unfoldable pub map_type : Planner → String → String
map_type c t = c.replace_all t "." "_"

-- An identifier of the envelope is nil.
unfoldable pub unattributed : NoticeEvent → Bool
unattributed e = is_nil e.event_id || is_nil e.tenant_id || is_nil e.aggregate_id

-- The event of a reminder.
abbrev pub reminder_event : Planner → NoticeEvent → ℤ → NoticeEvent
reminder_event c e off = record e { event_id = c.reminder_id e.event_id off }

-- The time of a reminder.
abbrev pub remind_at : Time → ℤ → Time
remind_at start off = add start (negate off)

-- One round of the loop over the offsets: a reminder whose time is past is not planned.
unfoldable pub plan_reminder :
    Env → Planner → NoticeEvent → String → Time → ℤ → Bool → Action NoticeError (List Notice) Bool
unfolding done plan lookup
plan_reminder env c e recipient start off false = done false
plan_reminder env c e recipient start off true =
    plan env e.tenant_id (reminder_event c e off) "appointment_reminder" recipient
      (or_blank (lookup "appointment.reminder_due" c.templates)) c.language (remind_at start off)

unfoldable pub plan_reminders :
    Env
    → Planner
    → NoticeEvent
    → String
    → Time
    → List ℤ
    → Action NoticeError (List Notice) (Unit {0})
unfolding ◌>>=◌ done plan_reminder
plan_reminders env c e recipient start [] = done tt
plan_reminders env c e recipient start (off ∷ rest) = do
  created ← plan_reminder env c e recipient start off (after (remind_at start off) env.now)
  plan_reminders env c e recipient start rest

unfoldable pub cancel_if : Env → NoticeEvent → Bool → Action NoticeError (List Notice) (Unit {0})
unfolding done cancel_reminders
cancel_if env e false = done tt
cancel_if env e true = cancel_reminders env e.tenant_id e.aggregate_id

unfoldable pub remind_if :
    Env → Planner → NoticeEvent → String → Bool → Action NoticeError (List Notice) (Unit {0})
unfolding ◌>>=◌ done must plan_reminders
remind_if env c e recipient false = done tt
remind_if env c e recipient true = do
  offsets ← must no_offsets (c.offsets e.tenant_id)
  plan_reminders env c e recipient (c.start_at e.payload) offsets

-- A rescheduled or cancelled appointment loses its reminders.
unfoldable pub drops_reminders : NoticeEvent → Bool
drops_reminders e =
    str_eq e.event_type "appointment.rescheduled" || str_eq e.event_type "appointment.cancelled"

-- A created or rescheduled appointment with a time gets reminders.
unfoldable pub has_reminders : Planner → NoticeEvent → Bool
has_reminders c e =
    (str_eq e.event_type "appointment.created" || str_eq e.event_type "appointment.rescheduled")
    && not (is_zero (c.start_at e.payload))

-- The steps for a recipient that was resolved.
unfoldable pub notify :
    Env → Planner → NoticeEvent → String → String → Action NoticeError (List Notice) (Unit {0})
unfolding ◌>>=◌ ◌>>◌ plan map_type cancel_if drops_reminders remind_if has_reminders
notify env c e template recipient = do
  created ← plan env e.tenant_id e (map_type c e.event_type) recipient template c.language env.now
  cancel_if env e (drops_reminders e)
  remind_if env c e recipient (has_reminders c e)

unfoldable pub handle_known :
    Env → Planner → NoticeEvent → Option String → Action NoticeError (List Notice) (Unit {0})
unfolding ◌>>=◌ done must notify
handle_known env c e none = done tt
handle_known env c e (some template) = do
  resolver ← must no_resolver c.recipients
  recipient ← must unresolved (resolver e.tenant_id e.aggregate_id)
  notify env c e template recipient

-- handle; `none` is a message that is no envelope.
unfoldable pub handle :
    Env → Planner → Option NoticeEvent → Action NoticeError (List Notice) (Unit {0})
unfolding ◌>>◌ fail stop_if unattributed handle_known lookup
handle env c none = fail malformed
handle env c (some e) = do
  stop_if (unattributed e || not (eqb_ℤ e.event_version (pos 1))) malformed
  handle_known env c e (lookup e.event_type c.templates)

unfoldable pub fail_known :
    Env
    → Planner
    → NoticeEvent
    → NoticeError
    → Option String
    → Action NoticeError (List Notice) (Unit {0})
unfolding done record_failure map_type
fail_known env c e cause none = done tt
fail_known env c e cause (some template) =
    record_failure env e.tenant_id e (map_type c e.event_type) template c.language
      (c.error_text cause)

-- markTerminal: what cannot be attributed, or has no template, leaves no row.
unfoldable pub mark_terminal :
    Env → Planner → Option NoticeEvent → NoticeError → Action NoticeError (List Notice) (Unit {0})
unfolding done unattributed fail_known lookup
mark_terminal env c none cause = done tt
mark_terminal env c (some e) cause =
    let known = fail_known env c e cause (lookup e.event_type c.templates) in
    if unattributed e then done tt else known

-- What the consumer tells the broker.
pub data Reply : Type 0 where
  ack nak term : Reply

unfoldable pub replied :
    Env
    → Planner
    → Option NoticeEvent
    → ℕ
    → Result NoticeError (Unit {0})
    → List Notice
    → Reply × List Notice
unfolding mark_terminal
replied env c m delivered (ok u) rows = (ack, rows)
replied env c m delivered (err cause) rows =
    if leb 1 c.max_deliver && leb c.max_deliver delivered
    then (term, (mark_terminal env c m cause rows).1)
    else (nak, rows)

-- The body of the loop of Run for one message and the number of its delivery.
unfoldable pub consume : Env → Planner → Option NoticeEvent → ℕ → List Notice → Reply × List Notice
unfolding handle replied
consume env c m delivered rows =
    let (r, rows') = handle env c m rows in replied env c m delivered r rows'
