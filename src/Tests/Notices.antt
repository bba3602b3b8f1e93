-- ===== src/Tests/Notices.antt =====
-- The message of a rescheduled appointment, delivered twice, and a notice that the worker settles.
use shearix_platform.Shared.{
  ℕ, String, true, false, ◌≡◌, ◌⊎◌, inl, inr, refl, none, some, List, [], ◌∷◌, In, In-cons, negsuc,
  here, any, str_eq, ◌+ℤ◌, ◌-ℤ◌, ◌*ℤ◌, pos, if◌then◌else◌, ◌+◌,
}
use shearix_platform.Shared.Actions.{Gives, ◌>>=◌, ◌>>◌, go_on, done, stop_if, query, write, must}
use shearix_platform.GoTime.{negate, minutes, wrap64, to_u64, of_u64}
use shearix_platform.Platform.Transactions.{transaction, atomic, rolled_back}
use shearix_platform.Notification.Store.{NoticeEvent, Notice, Claimed, Env, known_kind, same_notice}
use shearix_platform.Notification.Repository.{
  sent, in_tenant_tx, update_notices, new_notice, insert_row, insert_new, plan_body, plan,
  is_waiting_reminder, cancel_body, cancel_reminders,
}
use shearix_platform.Notification.Repository.Claims.{holds_claim, finish}
use shearix_platform.Notification.Consumer.{
  Planner, lookup, map_type, plan_reminder, plan_reminders, cancel_if, remind_if, drops_reminders,
  has_reminders, notify, handle_known, handle, unattributed,
}
use shearix_platform.Notification.Worker.{
  temporary, accepted, min, retry_after, next_attempt, settle,
}
use shearix_platform.Notification.Final.{Stands}
use shearix_platform.Notification.Final.Settled.{to_consume, to_deliver, act_all, act_all-Stands}
use shearix_platform.Notification.Redelivered.Twice.{HasReminders, dropped}
use shearix_platform.Notification.Redelivered.Again.{handle-dropped, handle-is_waiting_reminder}
use shearix_platform.Notification.Attempts.{IsHeld, Settled, settle-Settled, settle-In}

abbrev at_time : ℕ → Env
at_time t = record {
  fails = λ stmt. false;
  now = pos t;
  new_id = λ event kind. event;
  new_claim = λ id. id + 1000;
}

abbrev planner : Planner
planner = record {
  templates = ("appointment.rescheduled", "moved") ∷ ("appointment.reminder_due", "soon") ∷ [];
  language = "en";
  recipients = some (λ tenant appointment. some "c@d");
  offsets = λ tenant. some (pos 30 ∷ pos 10 ∷ []);
  replace_all =
      λ t old new. if str_eq t "appointment.rescheduled" then "appointment_rescheduled" else t;
  start_at = λ payload. pos 100;
  reminder_id = λ event off. elim off [ pos n ↦ event + n | negsuc n ↦ event ];
  error_text = λ e. "failed";
  max_deliver = 20;
}

abbrev moved : NoticeEvent
moved = record {
  event_id = 500;
  event_type = "appointment.rescheduled";
  event_version = pos 1;
  tenant_id = 1;
  aggregate_id = 9;
  payload = "";
}

-- The rows after the first delivery: two reminders and the notice of the change.
abbrev planned : List Notice
planned = (handle (at_time 20) planner (some moved) []).1

handled_first : Gives (handle (at_time 20) planner (some moved)) [] tt
unfolding handle handle_known notify plan_reminder plan_reminders cancel_if remind_if
    drops_reminders has_reminders unattributed lookup map_type plan plan_body insert_new insert_row
    new_notice known_kind same_notice cancel_reminders cancel_body update_notices
    is_waiting_reminder in_tenant_tx sent transaction atomic rolled_back ◌>>=◌ ◌>>◌ go_on done
    stop_if query write must any negate wrap64 to_u64 of_u64 ◌+ℤ◌ ◌-ℤ◌
handled_first = refl

waiting_first : any (is_waiting_reminder 1 9) planned ≡ true
unfolding handle handle_known notify plan_reminder plan_reminders cancel_if remind_if
    drops_reminders has_reminders unattributed lookup map_type plan plan_body insert_new insert_row
    new_notice known_kind same_notice cancel_reminders cancel_body update_notices
    is_waiting_reminder in_tenant_tx sent transaction atomic rolled_back ◌>>=◌ ◌>>◌ go_on done
    stop_if query write must any negate wrap64 to_u64 of_u64 ◌+ℤ◌ ◌-ℤ◌
waiting_first = refl

handled_second : Gives (handle (at_time 21) planner (some moved)) planned tt
unfolding handle handle_known notify plan_reminder plan_reminders cancel_if remind_if
    drops_reminders has_reminders unattributed lookup map_type plan plan_body insert_new insert_row
    new_notice known_kind same_notice cancel_reminders cancel_body update_notices
    is_waiting_reminder in_tenant_tx sent transaction atomic rolled_back ◌>>=◌ ◌>>◌ go_on done
    stop_if query write must any negate wrap64 to_u64 of_u64 ◌+ℤ◌ ◌-ℤ◌
handled_second = refl

found : lookup "appointment.rescheduled" planner.templates ≡ some "moved"
unfolding lookup
found = refl

handle-dropped_example :
    (handle (at_time 21) planner (some moved) planned).1
    ≡ dropped moved (drops_reminders moved) planned
handle-dropped_example =
    handle-dropped (at_time 20) (at_time 21) planner moved "moved" [] found refl handled_first
      handled_second

handle-is_waiting_reminder_example :
    HasReminders (pos 20) planner moved (pos 100) (pos 30 ∷ pos 10 ∷ []) planned
    × (any (is_waiting_reminder 1 9) (handle (at_time 21) planner (some moved) planned).1 ≡ false)
handle-is_waiting_reminder_example =
    handle-is_waiting_reminder (at_time 20) (at_time 21) planner moved "moved"
      (pos 30 ∷ pos 10 ∷ []) [] refl refl refl found refl handled_first handled_second

abbrev notice : String → Notice
notice status = record {
  id = 5;
  tenant_id = 1;
  event_id = 400;
  appointment_id = 9;
  kind = "appointment_created";
  recipient = "c@d";
  template = "t";
  language = "en";
  status = status;
  attempts = 2;
  message_id = none;
  scheduled_at = pos 1;
  next_attempt_at = pos 1;
  last_error = none;
  lease_until = some (pos 40);
  claim_token = some 1005;
}

abbrev item : Claimed
item = record {
  id = 5;
  claim_token = 1005;
  tenant_id = 1;
  appointment_id = 9;
  kind = "appointment_created";
  email = "c@d";
  template = "t";
  language = "en";
  attempts = 2;
  recovered = false;
}

-- The notice waits for another attempt, four minutes later.
abbrev retried : Notice
retried = record (notice "pending") {
  next_attempt_at = pos 240000000010;
  last_error = some "email delivery temporarily unavailable";
  lease_until = none;
  claim_token = none;
}

settled : settle (at_time 10) item temporary (notice "processing" ∷ []) ≡ retried ∷ []
unfolding settle finish update_notices holds_claim sent ◌>>=◌ ◌>>◌ go_on stop_if write next_attempt
    retry_after min minutes wrap64 to_u64 of_u64 ◌+ℤ◌ ◌*ℤ◌
settled = refl

retried_there : In retried (settle (at_time 10) item temporary (notice "processing" ∷ []))
retried_there = rw settled (here refl)

notice-IsHeld : IsHeld item (notice "processing")
notice-IsHeld = record { its = refl; processing = refl; claimed = refl }

settle-Settled_example :
    (n : Notice) × In n (settle (at_time 10) item temporary (notice "processing" ∷ []))
    × Settled (at_time 10) item temporary (notice "processing") n
settle-Settled_example =
    settle-Settled (at_time 10) item temporary (notice "processing" ∷ []) (notice "processing") refl
      (here refl) notice-IsHeld

settle-In_example :
    In retried (notice "processing" ∷ [])
    ⊎ ((old : Notice) × In old (notice "processing" ∷ [])
        × IsHeld item old
        × Settled (at_time 10) item temporary old retried)
settle-In_example =
    settle-In (at_time 10) item temporary (notice "processing" ∷ []) retried retried_there

sent_Stands : Stands (notice "sent") (notice "sent" ∷ [])
sent_Stands = record {
  there_is = here refl;
  only = λ n m e. elim (In-cons m) [ inl s ↦ s | inr i ↦ elim i [ ] ];
}

act_all-Stands_example : Stands (notice "sent") (
    act_all
      (to_consume (at_time 20) planner (some moved) 1
        ∷ to_consume (at_time 21) planner (some moved) 20
        ∷ to_deliver (at_time 90) (λ i. at_time 90) (λ i. false) (λ i. accepted "m")
        ∷ [])
      (notice "sent" ∷ []))
act_all-Stands_example =
    act_all-Stands (notice "sent") (inl refl)
      (to_consume (at_time 20) planner (some moved) 1
        ∷ to_consume (at_time 21) planner (some moved) 20
        ∷ to_deliver (at_time 90) (λ i. at_time 90) (λ i. false) (λ i. accepted "m")
        ∷ [])
      (notice "sent" ∷ []) sent_Stands
