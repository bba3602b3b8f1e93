-- ===== src/Notification/Redelivered/Again.antt =====
-- services/notification-service/internal/consumer/consumer.go: what the second delivery of an event
-- changes.
use shearix_platform.Shared.{
  String, Bool, true, false, ◌≡◌, refl, sym, ap, subst, ◌∙◌, some, List, any, Option-cases, inl,
  inr, ℤ, arith,
}
use shearix_platform.Shared.Actions.{
  Gives, ◌>>=◌, ◌>>◌, go_on, done, must, stop_if, >>=-Gives, >>-Gives,
}
use shearix_platform.GoTime.{before, is_zero}
use shearix_platform.Platform.Ids.{Uuid}
use shearix_platform.Notification.Store.{NoticeEvent, Notice, Env}
use shearix_platform.Notification.Repository.{plan, is_waiting_reminder}
use shearix_platform.Notification.Consumer.{
  Planner, lookup, map_type, remind_at, plan_reminders, cancel_if, remind_if, drops_reminders,
  has_reminders, notify, handle_known, handle,
}
use shearix_platform.Notification.Redelivered.{Has, plan_same, plan-Has, none_waits}
use shearix_platform.Notification.Redelivered.Twice.{
  HasReminders, plan_reminders_keeps, plan_reminders-Has, plan_reminders_same, later_after, Planned,
  cancel_if_keeps, dropped, cancel_if-dropped,
}
use text.Mathlib.TextEquality.{eq_iff}

remind_if_keeps :
    (env : Env) (c : Planner) (e : NoticeEvent) (recipient : String) (b : Bool) (rows : List Notice)
    (t v : Uuid) (k : String)
    → Has t v k rows
    → Has t v k (remind_if env c e recipient b rows).1
unfolding remind_if done must ◌>>=◌ go_on
remind_if_keeps env c e recipient false rows t v k h = h
remind_if_keeps env c e recipient true rows t v k h = elim (Option-cases (c.offsets e.tenant_id)) [
  | inl o ↦ ground (arith, o)
  | inr (offsets, o) ↦
      ground (
        arith,
        o,
        plan_reminders_keeps env c e recipient (c.start_at e.payload) offsets rows t v k h,
      )
]

remind_if-Has :
    (env : Env) (c : Planner) (e : NoticeEvent) (recipient : String) (b : Bool) (rows : List Notice)
    (u : Unit {0}) (offsets : List ℤ)
    → Gives (remind_if env c e recipient b) rows u
    → b ≡ true
    → c.offsets e.tenant_id ≡ some offsets
    → HasReminders env.now c e (c.start_at e.payload) offsets (remind_if env c e recipient b rows).1
unfolding remind_if done must ◌>>=◌ go_on
remind_if-Has env c e recipient false rows u offsets h t o = absurd (cc)
remind_if-Has env c e recipient true rows u offsets h t o = λ off m a.
    let op = plan_reminders env c e recipient (c.start_at e.payload) offsets in
    let gives : Gives op rows u = ground (arith, o) in
    let kept =
      plan_reminders-Has env c e recipient (c.start_at e.payload) offsets rows u gives off m a in
    ground (arith, o, kept)

remind_if_same :
    (env : Env) (c : Planner) (e : NoticeEvent) (recipient : String) (b : Bool) (rows : List Notice)
    → (b ≡ true
        → (offsets : List ℤ) → c.offsets e.tenant_id ≡ some offsets
        → HasReminders env.now c e (c.start_at e.payload) offsets rows)
    → (remind_if env c e recipient b rows).1 ≡ rows
unfolding remind_if done must ◌>>=◌ go_on
remind_if_same env c e recipient false rows h = refl
remind_if_same env c e recipient true rows h = elim (Option-cases (c.offsets e.tenant_id)) [
  | inl o ↦ ground (arith, o)
  | inr (offsets, o) ↦ ground (
    arith,
    o,
    plan_reminders_same env c e recipient (c.start_at e.payload) offsets rows (h refl offsets o),
  )
]

-- The three steps of a delivery that was handled.
record Steps (env : Env) (c : Planner) (e : NoticeEvent) (recipient template : String)
    (rows : List Notice) (left : List Notice) : Type 0 where
  made : Bool
  first_ok :
      Gives
        (plan env e.tenant_id e (map_type c e.event_type) recipient template c.language env.now)
        rows
        made
  planned : List Notice
  planned_is :
      (plan env e.tenant_id e
        (map_type c e.event_type)
        recipient
        template
        c.language
        env.now
        rows).1
      ≡ planned
  second_ok : (u : Unit {0}) × Gives (cancel_if env e (drops_reminders e)) planned u
  third_ok :
      Gives
        (remind_if env c e recipient (has_reminders c e))
        (cancel_if env e (drops_reminders e) planned).1
        tt
  left_is :
      left
      ≡ (remind_if env c e recipient
          (has_reminders c e)
          (cancel_if env e (drops_reminders e) planned).1).1

notify-Steps :
    (env : Env) (c : Planner) (e : NoticeEvent) (template recipient : String) (rows : List Notice)
    → Gives (notify env c e template recipient) rows tt
    → Steps env c e recipient template rows (notify env c e template recipient rows).1
unfolding notify
notify-Steps env c e template recipient rows h =
    let op =
      plan env e.tenant_id e (map_type c e.event_type) recipient template c.language env.now in
    let drop = cancel_if env e (drops_reminders e) in
    let remind = remind_if env c e recipient (has_reminders c e) in
    let (made, g, h1, left) = >>=-Gives op (λ created. drop >> remind) rows tt h in
    let (g2, h2, left2) = >>-Gives drop remind (op rows).1 tt h1 in
    record {
      made = made;
      first_ok = g;
      planned = (op rows).1;
      planned_is = refl;
      second_ok = g2;
      third_ok = h2;
      left_is = left ∙ left2;
    }

notify-Planned :
    (env : Env) (c : Planner) (e : NoticeEvent) (template recipient : String) (rows : List Notice)
    → Gives (notify env c e template recipient) rows tt
    → Planned env c e (notify env c e template recipient rows).1
notify-Planned env c e template recipient rows h =
    let s = notify-Steps env c e template recipient rows h in
    let mid = (cancel_if env e (drops_reminders e) s.planned).1 in
    subst (Planned env c e) (sym s.left_is) (record {
      main = remind_if_keeps env c e recipient _ mid _ _ _ (
          cancel_if_keeps env e _ s.planned _ _ _ (
            subst (Has e.tenant_id e.event_id (map_type c e.event_type)) s.planned_is (
              plan-Has env e.tenant_id e _ recipient template c.language env.now rows s.made
                s.first_ok)));
      reminders = λ b offsets o. remind_if-Has env c e recipient _ mid tt offsets s.third_ok b o;
    })

notify_again :
    (env later : Env) (c : Planner) (e : NoticeEvent) (template recipient : String)
    (rows : List Notice)
    → Planned env c e rows
    → before later.now env.now ≡ false
    → Gives (notify later c e template recipient) rows tt
    → (notify later c e template recipient rows).1 ≡ dropped e (drops_reminders e) rows
notify_again env later c e template recipient rows p t h =
    let s = notify-Steps later c e template recipient rows h in
    let b = drops_reminders e in
    let start = c.start_at e.payload in
    let same : s.planned ≡ rows =
      sym s.planned_is
      ∙ plan_same later e.tenant_id e _ recipient template c.language later.now rows p.main in
    let (u, g) = s.second_ok in
    let mid = (cancel_if later e b s.planned).1 in
    let kept : (r : Unit {0})
        → has_reminders c e ≡ true
        → (offsets : List ℤ) → c.offsets e.tenant_id ≡ some offsets
        → HasReminders later.now c e start offsets mid =
      λ r hr offsets o off m a. cancel_if_keeps later e b s.planned _ _ _ (
        subst (λ x. Has e.tenant_id (c.reminder_id e.event_id off) "appointment_reminder" x)
          (sym same)
          (p.reminders hr offsets o off m
            (later_after env.now later.now (remind_at start off) t a))) in
    s.left_is
    ∙ remind_if_same later c e recipient (has_reminders c e) mid (kept tt)
    ∙ cancel_if-dropped later e b s.planned u g
    ∙ ap (dropped e b) same

-- A handled message was notified, for the recipient that was resolved.
handle-notify :
    (env : Env) (c : Planner) (e : NoticeEvent) (template : String) (rows : List Notice)
    → lookup e.event_type c.templates ≡ some template
    → Gives (handle env c (some e)) rows tt
    → (recipient : String) × Gives (notify env c e template recipient) rows tt
      × ((handle env c (some e) rows).1 ≡ (notify env c e template recipient rows).1)
unfolding handle handle_known stop_if must ◌>>=◌ ◌>>◌ go_on
handle-notify env c e template rows known h = elim (Option-cases c.recipients) [
  | inl r ↦ absurd (ground (arith, known, r))
  | inr (resolver, r) ↦ elim (Option-cases (resolver e.tenant_id e.aggregate_id)) [
    | inl a ↦ absurd (ground (arith, known, r, a))
    | inr (recipient, a) ↦ (recipient, ground (arith, known, r, a), ground (arith, known, r, a))
  ]
]

-- A message of a known event type that was handled without an error and is handled again, later and
-- without an error, with the same settings: the second time plans nothing. It changes nothing, but
-- for an event of a rescheduled or cancelled appointment it cancels the reminders that wait.
pub handle-dropped :
    (env later : Env) (c : Planner) (e : NoticeEvent) (template : String) (rows : List Notice)
    → lookup e.event_type c.templates ≡ some template
    → before later.now env.now ≡ false
    → Gives (handle env c (some e)) rows tt
    → let left = (handle env c (some e) rows).1 in
      Gives (handle later c (some e)) left tt
      → (handle later c (some e) left).1 ≡ dropped e (drops_reminders e) left
handle-dropped env later c e template rows known t h h' =
    let left = (handle env c (some e) rows).1 in
    let (recipient, g, is) = handle-notify env c e template rows known h in
    let (recipient', g', is') = handle-notify later c e template left known h' in
    is'
    ∙ notify_again env later c e template recipient' left
        (subst (Planned env c e) (sym is) (notify-Planned env c e template recipient rows g)) t g'

-- When the message of a rescheduled appointment was handled twice, as above, the first time left a
-- reminder for each offset whose time was still to come, and after the second time no reminder of
-- the appointment waits to be sent.
pub handle-is_waiting_reminder :
    (env later : Env) (c : Planner) (e : NoticeEvent) (template : String) (offsets : List ℤ)
    (rows : List Notice)
    → e.event_type ≡ "appointment.rescheduled"
    → is_zero (c.start_at e.payload) ≡ false
    → c.offsets e.tenant_id ≡ some offsets
    → lookup e.event_type c.templates ≡ some template
    → before later.now env.now ≡ false
    → Gives (handle env c (some e)) rows tt
    → let left = (handle env c (some e) rows).1 in
      Gives (handle later c (some e)) left tt
      → HasReminders env.now c e (c.start_at e.payload) offsets left
        × (any (is_waiting_reminder e.tenant_id e.aggregate_id) (handle later c (some e) left).1
            ≡ false)
unfolding drops_reminders has_reminders
handle-is_waiting_reminder env later c e template offsets rows moved timed set known t h h' =
    let left = (handle env c (some e) rows).1 in
    let is_it = (eq_iff e.event_type "appointment.rescheduled").1 moved in
    let drops : drops_reminders e ≡ true = ground (arith, is_it) in
    let reminded : has_reminders c e ≡ true = ground (arith, is_it, timed) in
    let (recipient, g, is) = handle-notify env c e template rows known h in
    let planned =
      subst (Planned env c e) (sym is) (notify-Planned env c e template recipient rows g) in
    let after_it : (handle later c (some e) left).1 ≡ dropped e true left =
      handle-dropped env later c e template rows known t h h' ∙ ap (λ b. dropped e b left) drops in
    (
      planned.reminders reminded offsets set,
      subst (λ x. any (is_waiting_reminder e.tenant_id e.aggregate_id) x ≡ false) (sym after_it)
          (none_waits e.tenant_id e.aggregate_id left),
    )
