-- ===== src/Notification/Final.antt =====
-- services/notification-service: what no message and no round of the worker changes.
pub mod Settled
use shearix_platform.Shared.{
  ℕ, zero, suc, String, Bool, true, false, ◌&&◌, ◌||◌, not, ◌≡◌, ◌≢◌, refl, sym, subst, ◌⊎◌, inl,
  inr, Option, none, some, List, [], ◌∷◌, any, any-false, any_of_none, select, select-In, take, In,
  In-cons, here, there, str_eq, ◌==◌, ==_iff, ==_refl, arith, Bool-cases, if◌then◌else◌,
}
use shearix_platform.Shared.Actions.{Action, ◌>>=◌, ◌>>◌, go_on, stop_if, query, write, done}
use shearix_platform.GoTime.{Time, after}
use shearix_platform.Platform.Ids.{Uuid}
use shearix_platform.Platform.Transactions.{Keeps, transaction}
use shearix_platform.Platform.Transactions.Keeping.{
  keeps_rules, Leaves, guard-Leaves, Keeps-transaction, Keeps-stop_if, Keeps-write,
}
use shearix_platform.Notification.Store.{
  NoticeEvent, Notice, NoticeError, failed, Stmt, claim_notices, Env, known_kind, same_notice,
  is_open,
}
use shearix_platform.Notification.Repository.{
  sent, in_tenant_tx, update_notices, new_notice, insert_row, insert_new, plan_body, plan,
  failed_notice, upsert_failure, record_failure, is_waiting_reminder, cancelled_notice, cancel_body,
  cancel_reminders,
}
use shearix_platform.Notification.Repository.Claims.{
  is_due, is_lapsed, in_scope, insert_by_time, by_time, candidates, batch, claimed_notice,
  is_one_of, claim, holds_claim, finished_notice, finish,
}
use text.Mathlib.TextEquality.{eq_iff}

-- The notice stands in the table, and no other has its identifier.
pub record Stands (r : Notice) (rows : List Notice) : Type 0 where
  pub there_is : In r rows
  pub only : (n : Notice) → In n rows → n.id ≡ r.id → n ≡ r

-- A notice that is sent or cancelled.
abbrev pub IsFinal : Notice → Type 0
IsFinal r = (r.status ≡ "sent") ⊎ (r.status ≡ "cancelled")

final_status :
    (r : Notice) (s : String)
    → IsFinal r
    → str_eq "sent" s ≡ false
    → str_eq "cancelled" s ≡ false
    → str_eq r.status s ≡ false
final_status r s (inl e) a b = subst (λ t. str_eq t s ≡ false) (sym e) a
final_status r s (inr e) a b = subst (λ t. str_eq t s ≡ false) (sym e) b

final_closed : (r : Notice) → IsFinal r → is_open r ≡ false
unfolding is_open
final_closed r (inl e) = ground (arith, (eq_iff r.status "sent").1 e)
final_closed r (inr e) = ground (arith, (eq_iff r.status "cancelled").1 e)

-- The rows of an update.
pub update_notices-In :
    (p : Notice → Bool) (f : Notice → Notice) (rows : List Notice) (n : Notice)
    → In n (update_notices p f rows)
    → (old : Notice) × In old rows × (n ≡ (if p old then f old else old))
unfolding update_notices
update_notices-In p f [] n m = elim m [ ]
update_notices-In p f (x ∷ rows) n (here e) = (x, here refl, e)
update_notices-In p f (x ∷ rows) n (there m) =
    let (old, i, e) = update_notices-In p f rows n m in (old, there i, e)

In-update_notices :
    (p : Notice → Bool) (f : Notice → Notice) (rows : List Notice) (r : Notice)
    → p r ≡ false
    → In r rows
    → In r (update_notices p f rows)
unfolding update_notices
In-update_notices p f [] r e m = elim m [ ]
In-update_notices p f (x ∷ rows) r e (here s) =
    here (let t : p x ≡ false = subst (λ y. p y ≡ false) s e in ground (arith, t, s))
In-update_notices p f (x ∷ rows) r e (there m) = there (In-update_notices p f rows r e m)

module _ (r : Notice) where
  update_notices-Stands :
      (p : Notice → Bool) (f : Notice → Notice) (rows : List Notice)
      → p r ≡ false
      → ((n : Notice) → (f n).id ≡ n.id)
      → Stands r rows
      → Stands r (update_notices p f rows)
  update_notices-Stands p f rows spared keeps s = record {
    there_is = In-update_notices p f rows r spared s.there_is;
    only = λ n m e.
        let (old, i, was) = update_notices-In p f rows n m in
        let same : old.id ≡ n.id = elim (Bool-cases (p old)) [
          | inl t ↦ ground (arith, t, was, keeps old)
          | inr t ↦ ground (arith, t, was)
        ] in
        let is_r : old ≡ r = s.only old i (ground arith) in
        let off : p old ≡ false = subst (λ x. p x ≡ false) (sym is_r) spared in
        ground (arith, off, was, is_r);
  }

  insert_row-Stands :
      (n : Notice) (rows : List Notice)
      → any (λ (m : Notice). m.id == n.id) rows ≡ false
      → Stands r rows
      → Stands r (n ∷ rows)
  insert_row-Stands n rows fresh s = record {
    there_is = there s.there_is;
    only = λ m i e. elim (In-cons i) [
      | inr old ↦ s.only m old e
      | inl new ↦
          let other : (r.id == n.id) ≡ false =
            any-false (λ (x : Notice). x.id == n.id) rows fresh s.there_is in
          absurd (ground (arith, other, new, e))
    ];
  }

In-take : (n : ℕ) (rows : List Notice) (x : Notice) → In x (take n rows) → In x rows
In-take zero rows x m = elim m [ ]
In-take (suc n) [] x m = elim m [ ]
In-take (suc n) (y ∷ rows) x (here e) = here e
In-take (suc n) (y ∷ rows) x (there m) = there (In-take n rows x m)

In_behind : (x n y : Notice) (rows : List Notice) → In x (n ∷ rows) → In x (n ∷ y ∷ rows)
In_behind x n y rows (here e) = here e
In_behind x n y rows (there m) = there (there m)

insert_by_time-In :
    (n : Notice) (rows : List Notice) (x : Notice) → In x (insert_by_time n rows) → In x (n ∷ rows)
unfolding insert_by_time
insert_by_time-In n [] x m = m
insert_by_time-In n (y ∷ rows) x m = elim (Bool-cases (after n.scheduled_at y.scheduled_at)) [
  | inr e ↦ rw e at m
  | inl e ↦ elim (In-cons {x = x} {y = y} {ys = insert_by_time n rows} (rw e at m)) [
    | inl h ↦ there (here h)
    | inr i ↦ In_behind x n y rows (insert_by_time-In n rows x i)
  ]
]

by_time-In : (rows : List Notice) (x : Notice) → In x (by_time rows) → In x rows
unfolding by_time
by_time-In [] x m = m
by_time-In (n ∷ rows) x m = elim (In-cons (insert_by_time-In n (by_time rows) x m)) [
  | inl e ↦ here e
  | inr i ↦ there (by_time-In rows x i)
]

-- A candidate is a row that is due.
candidates_due :
    (now : Time) (tenant : Option Uuid) (limit : ℕ) (rows : List Notice) (x : Notice)
    → In x (candidates now tenant limit rows)
    → In x rows × (is_due now tenant x ≡ true)
unfolding candidates
candidates_due now tenant limit rows x m =
    select-In (is_due now tenant) rows (by_time-In _ x (In-take (batch limit) _ x m))

final_undue :
    (now : Time) (tenant : Option Uuid) (r : Notice) → IsFinal r → is_due now tenant r ≡ false
unfolding is_due
final_undue now tenant r f =
    let a = final_status r "pending" f refl refl in
    let b = final_status r "processing" f refl refl in ground (arith, a, b)

-- No candidate has the identifier of a final notice.
unclaimed :
    (now : Time) (tenant : Option Uuid) (limit : ℕ) (r : Notice) (rows : List Notice)
    → IsFinal r
    → Stands r rows
    → is_one_of (candidates now tenant limit rows) r ≡ false
unclaimed now tenant limit r rows f s =
    any_of_none (λ (c : Notice). c.id == r.id) (candidates now tenant limit rows)
      (λ c m.
        let (i, due) = candidates_due now tenant limit rows c m in
        elim (Bool-cases (c.id == r.id)) [
          | inr e ↦ e
          | inl e ↦
              let same : c ≡ r = s.only c i ((==_iff c.id r.id).0 e) in
              let not_due : is_due now tenant c ≡ false =
                subst (λ x. is_due now tenant x ≡ false) (sym same) (final_undue now tenant r f) in
              cc
        ])

module _ (r : Notice) (final : IsFinal r) where
  insert_row-Keeps : (n : Notice) → Keeps (Stands r) (insert_row n)
  unfolding insert_row ◌>>=◌ query go_on write
  insert_row-Keeps n = record {
    at = λ rows s.
        guard-Leaves (Stands r) (any (λ (m : Notice). m.id == n.id) rows) failed _ rows s
          (λ fresh. insert_row-Stands r n rows fresh s);
  }

  insert_new-Keeps : (n : Notice) (there : Bool) → Keeps (Stands r) (insert_new n there)
  unfolding insert_new
  insert_new-Keeps n true = search keeps_rules
  insert_new-Keeps n false = search (keeps_rules, insert_row-Keeps)

  plan_body-Keeps : (env : Env) (n : Notice) → Keeps (Stands r) (plan_body env n)
  unfolding plan_body sent
  plan_body-Keeps env n = search (keeps_rules, insert_new-Keeps)

  pub plan-Keeps :
      (env : Env) (tenant : Uuid) (e : NoticeEvent) (kind recipient template language : String)
      (scheduled : Time)
      → Keeps (Stands r) (plan env tenant e kind recipient template language scheduled)
  unfolding plan in_tenant_tx
  plan-Keeps env tenant e kind recipient template language scheduled =
      search (keeps_rules, plan_body-Keeps)

  update-Keeps :
      (p : Notice → Bool) (f : Notice → Notice)
      → p r ≡ false
      → ((n : Notice) → (f n).id ≡ n.id)
      → Keeps {E = NoticeError} (Stands r) (write (update_notices p f))
  update-Keeps p f spared same =
      Keeps-write (Stands r) _ (λ rows s. update_notices-Stands r p f rows spared same s)

  upsert_failure-Keeps :
      (n : Notice) (reason : String) (there : Bool)
      → Keeps (Stands r) (upsert_failure n reason there)
  unfolding upsert_failure
  upsert_failure-Keeps n reason true =
      update-Keeps _ (failed_notice reason) (ground (arith, final_closed r final)) (λ m. refl)
  upsert_failure-Keeps n reason false = insert_row-Keeps (failed_notice reason n)

  pub record_failure-Keeps :
      (env : Env) (tenant : Uuid) (e : NoticeEvent) (kind template language reason : String)
      → Keeps (Stands r) (record_failure env tenant e kind template language reason)
  unfolding record_failure in_tenant_tx sent
  record_failure-Keeps env tenant e kind template language reason =
      search (keeps_rules, upsert_failure-Keeps)

  cancel_body-Keeps :
      (env : Env) (tenant appointment : Uuid)
      → Keeps (Stands r) (cancel_body env tenant appointment)
  unfolding cancel_body sent is_waiting_reminder
  cancel_body-Keeps env tenant appointment =
      let unsought : is_waiting_reminder tenant appointment r ≡ false =
        ground (arith, final_status r "pending" final refl refl) in
      search (
        keeps_rules,
        update-Keeps (is_waiting_reminder tenant appointment) cancelled_notice unsought (λ m. refl),
      )

  pub cancel_reminders-Keeps :
      (env : Env) (tenant appointment : Uuid)
      → Keeps (Stands r) (cancel_reminders env tenant appointment)
  unfolding cancel_reminders in_tenant_tx
  cancel_reminders-Keeps env tenant appointment =
      Keeps-transaction (Stands r) _ _ failed _ (cancel_body-Keeps env tenant appointment)

  pub finish-Keeps :
      (env : Env) (id token : Uuid) (message problem : String) (retry : Option Time)
      → Keeps (Stands r) (finish env id token message problem retry)
  unfolding finish sent
  finish-Keeps env id token message problem retry = search (
    keeps_rules,
    update-Keeps (holds_claim id token) (finished_notice message problem retry) unheld (λ m. refl),
  )
    where
      unheld : holds_claim id token r ≡ false
      unheld = unfold holds_claim in ground (arith, final_status r "processing" final refl refl)

  pub claim-Keeps :
      (env : Env) (tenant : Option Uuid) (limit : ℕ) → Keeps (Stands r) (claim env tenant limit)
  unfolding claim sent ◌>>=◌ ◌>>◌ go_on query write done
  claim-Keeps env tenant limit = record {
    at = λ rows s. guard-Leaves (Stands r) (env.fails claim_notices) failed _ rows s (λ e.
        update_notices-Stands r (is_one_of (candidates env.now tenant limit rows))
          (claimed_notice env) rows (unclaimed env.now tenant limit r rows final s) (λ n. refl) s);
  }
