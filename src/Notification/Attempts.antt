-- ===== src/Notification/Attempts.antt =====
-- services/notification-service/internal/worker/worker.go: how a claimed notice is settled.
use shearix_platform.Shared.{
  ℕ, ◌*◌, ◌^◌, ◌<◌, ◌≤◌, String, Bool, ◌&&◌, [], ◌∷◌, here, there, if◌then◌else◌, ==_refl, true,
  false, ◌≡◌, refl, sym, subst, ◌⊎◌, inl, inr, Option, none, some, List, In, str_eq, ◌==◌, ltb,
  ltb→lt, ==_iff, ◌∙◌, ap, ◌*ℤ◌, Bool-cases, pos, arith,
}
use shearix_platform.Shared.Actions.{◌>>◌, ◌>>=◌, go_on, stop_if, write}
use shearix_platform.GoTime.{Time, add, minutes, wrap64, to_u64, of_u64}
use shearix_platform.Platform.Ids.{Uuid}
use shearix_platform.Notification.Store.{Notice, Claimed, Env, finish_notice}
use shearix_platform.Notification.Repository.{sent, update_notices}
use shearix_platform.Notification.Repository.Claims.{holds_claim, finished_notice, finish}
use shearix_platform.Notification.Final.{update_notices-In}
use shearix_platform.Notification.Worker.{
  Outcome, accepted, temporary, permanent, min, retry_after, next_attempt, settle,
}
use text.Mathlib.TextEquality.{eq_iff}

-- The notice is being processed under the claim of the item.
pub record IsHeld (item : Claimed) (n : Notice) : Type 0 where
  pub its : n.id ≡ item.id
  pub processing : n.status ≡ "processing"
  pub claimed : n.claim_token ≡ some item.claim_token

-- How an attempt at the item ended: sent with the message id of the provider; failed as the provider
-- gave no message id, after five attempts or after a permanent error; or waiting, 2 to the power of
-- the number of attempts in minutes from now.
pub data Ending (env : Env) (item : Claimed) (o : Outcome) (n : Notice) : Type 0 where
  delivered :
      (message : String)
      → o ≡ accepted message
      → str_eq message "" ≡ false
      → n.status ≡ "sent"
      → n.message_id ≡ some message
      → Ending env item o n
  nameless :
      (message : String)
      → o ≡ accepted message
      → str_eq message "" ≡ true
      → n.status ≡ "failed"
      → Ending env item o n
  again :
      o ≡ temporary
      → item.attempts < 5
      → n.status ≡ "pending"
      → n.next_attempt_at ≡ add env.now (pos (2 ^ item.attempts * 60000000000))
      → Ending env item o n
  given_up : o ≡ temporary → 5 ≤ item.attempts → n.status ≡ "failed" → Ending env item o n
  refused : o ≡ permanent → n.status ≡ "failed" → Ending env item o n

-- The notice `old` after the attempt.
pub record Settled (env : Env) (item : Claimed) (o : Outcome) (old n : Notice) : Type 0 where
  pub same_id : n.id ≡ old.id
  pub free : (n.claim_token ≡ none) × (n.lease_until ≡ none)
  pub to_whom : (n.recipient ≡ old.recipient) × (n.template ≡ old.template)
  pub ending : Ending env item o n

below_five : (P : ℕ → Type 0) → P 0 → P 1 → P 2 → P 3 → P 4 → (a : ℕ) → a < 5 → P a
below_five P p0 p1 p2 p3 p4 a h = elim (Bool-cases (a == 0)) [
  | inl e ↦ subst P (sym ((==_iff a 0).0 e)) p0
  | inr e0 ↦ elim (Bool-cases (a == 1)) [
    | inl e ↦ subst P (sym ((==_iff a 1).0 e)) p1
    | inr e1 ↦ elim (Bool-cases (a == 2)) [
      | inl e ↦ subst P (sym ((==_iff a 2).0 e)) p2
      | inr e2 ↦ elim (Bool-cases (a == 3)) [
        | inl e ↦ subst P (sym ((==_iff a 3).0 e)) p3
        | inr e3 ↦ subst P (ground (arith, e0, e1, e2, e3)) p4
      ]
    ]
  ]
]

-- No product wraps around.
retry_after_lem : (a : ℕ) → a < 5 → retry_after a ≡ pos (2 ^ a * 60000000000)
unfolding retry_after min minutes wrap64 to_u64 of_u64 ◌*ℤ◌
retry_after_lem a h =
    below_five (λ n. retry_after n ≡ pos (2 ^ n * 60000000000)) refl refl refl refl refl a h

next_attempt-some :
    (now : Time) (a : ℕ) (t : Time)
    → next_attempt now a ≡ some t
    → (a < 5) × (t ≡ add now (pos (2 ^ a * 60000000000)))
unfolding next_attempt
next_attempt-some now a t h = elim (Bool-cases (ltb a 5)) [
  | inl e ↦
      let few = ltb→lt a 5 e in (few, ground (arith, e, h) ∙ ap (add now) (retry_after_lem a few))
  | inr e ↦ absurd (ground (arith, e, h))
]

-- What `settle` does to the notice that holds the claim.
abbrev finished : Env → Claimed → Outcome → Notice → Notice
finished env item (accepted message) = finished_notice message "" none
finished env item temporary =
    finished_notice "" "email delivery temporarily unavailable" (next_attempt env.now item.attempts)
finished env item permanent = finished_notice "" "email delivery failed" none

In-updated :
    (p : Notice → Bool) (f : Notice → Notice) (rows : List Notice) (r : Notice)
    → p r ≡ true
    → In r rows
    → In (f r) (update_notices p f rows)
unfolding update_notices
In-updated p f [] r e m = elim m [ ]
In-updated p f (x ∷ rows) r e (here s) =
    here (let t : p x ≡ true = subst (λ y. p y ≡ true) s e in rw t (ap f s))
In-updated p f (x ∷ rows) r e (there m) = there (In-updated p f rows r e m)

finish-rows :
    (env : Env) (id token : Uuid) (message problem : String) (retry : Option Time)
    (rows : List Notice)
    → (finish env id token message problem retry rows).1 ≡ (
        if env.fails finish_notice
        then rows
        else update_notices (holds_claim id token) (finished_notice message problem retry) rows)
unfolding finish sent ◌>>◌ ◌>>=◌ go_on stop_if write
finish-rows env id token message problem retry rows = elim (Bool-cases (env.fails finish_notice)) [
  | inl e ↦ rw e refl
  | inr e ↦ rw e refl
]

settle-rows :
    (env : Env) (item : Claimed) (o : Outcome) (rows : List Notice)
    → settle env item o rows ≡ (
        if env.fails finish_notice
        then rows
        else update_notices (holds_claim item.id item.claim_token) (finished env item o) rows)
unfolding settle
settle-rows env item (accepted message) rows =
    finish-rows env item.id item.claim_token message "" none rows
settle-rows env item temporary rows =
    finish-rows env item.id item.claim_token "" "email delivery temporarily unavailable"
      (next_attempt env.now item.attempts) rows
settle-rows env item permanent rows =
    finish-rows env item.id item.claim_token "" "email delivery failed" none rows

token_is :
    (token : Uuid) (o : Option Uuid)
    → (elim o [ none ↦ false | some t ↦ t == token ]) ≡ true
    → o ≡ some token
token_is token none h = absurd (cc)
token_is token (some t) h = ap (λ x. some x) ((==_iff t token).0 h)

three : (a b c : Bool) → (a && b && c) ≡ true → (a ≡ true) × (b ≡ true) × (c ≡ true)
three a b c h = ground arith

held : (item : Claimed) (n : Notice) → holds_claim item.id item.claim_token n ≡ true → IsHeld item n
unfolding holds_claim
held item n h =
    let (i, p, t) = three (n.id == item.id) (str_eq n.status "processing") _ h in
    record {
      its = (==_iff n.id item.id).0 i;
      processing = (eq_iff n.status "processing").0 p;
      claimed = token_is item.claim_token n.claim_token t;
    }

holds :
    (item : Claimed) (n : Notice) → IsHeld item n → holds_claim item.id item.claim_token n ≡ true
unfolding holds_claim
holds item n h = rw (h.its, h.processing, h.claimed, ==_refl item.id, ==_refl item.claim_token) refl

retried-Ending :
    (env : Env) (item : Claimed) (old : Notice) (retry : Option Time)
    → next_attempt env.now item.attempts ≡ retry
    → Ending env item temporary
        (finished_notice "" "email delivery temporarily unavailable" retry old)
unfolding next_attempt
retried-Ending env item old none h = given_up refl (ground (arith, h)) refl
retried-Ending env item old (some t) h =
    let (few, time) = next_attempt-some env.now item.attempts t h in again refl few refl time

finished-Ending :
    (env : Env) (item : Claimed) (o : Outcome) (old : Notice)
    → Ending env item o (finished env item o old)
finished-Ending env item (accepted message) old = elim (Bool-cases (str_eq message "")) [
  | inl t ↦ nameless message refl t (rw t refl)
  | inr t ↦ delivered message refl t (rw t refl) (rw t refl)
]
finished-Ending env item temporary old = retried-Ending env item old _ refl
finished-Ending env item permanent old = refused refl refl

finished-Settled :
    (env : Env) (item : Claimed) (o : Outcome) (old : Notice)
    → Settled env item o old (finished env item o old)
finished-Settled env item (accepted message) old = record {
  same_id = refl;
  free = (refl, refl);
  to_whom = (refl, refl);
  ending = finished-Ending env item (accepted message) old;
}
finished-Settled env item temporary old = record {
  same_id = refl;
  free = (refl, refl);
  to_whom = (refl, refl);
  ending = finished-Ending env item temporary old;
}
finished-Settled env item permanent old = record {
  same_id = refl;
  free = (refl, refl);
  to_whom = (refl, refl);
  ending = finished-Ending env item permanent old;
}

-- A notice that is being processed under the claim of the item is settled by the worker as the
-- provider answered, if the statement does not fail: it is in the table that the worker leaves, its
-- claim given up, as sent, failed or waiting for the next attempt.
pub settle-Settled :
    (env : Env) (item : Claimed) (o : Outcome) (rows : List Notice) (old : Notice)
    → env.fails finish_notice ≡ false
    → In old rows
    → IsHeld item old
    → (n : Notice) × In n (settle env item o rows) × Settled env item o old n
settle-Settled env item o rows old works m h = (
  finished env item o old,
  subst (λ l. In (finished env item o old) l) (sym (settle-rows env item o rows))
      (rw works (
        In-updated (holds_claim item.id item.claim_token) (finished env item o) rows old
          (holds item old h) m)),
  finished-Settled env item o old,
)

-- The worker changes no other notice: each row of the table that it leaves was there before, or is a
-- notice that was being processed under the claim of the item, settled as the provider answered.
pub settle-In :
    (env : Env) (item : Claimed) (o : Outcome) (rows : List Notice) (n : Notice)
    → In n (settle env item o rows)
    → In n rows ⊎ ((old : Notice) × In old rows × IsHeld item old × Settled env item o old n)
settle-In env item o rows n m = elim (Bool-cases (env.fails finish_notice)) [
  | inl e ↦ inl (rw (settle-rows env item o rows, e) at m)
  | inr e ↦
      let (old, i, was) =
        update_notices-In (holds_claim item.id item.claim_token) (finished env item o) rows n
          (rw (settle-rows env item o rows, e) at m) in
      elim (Bool-cases (holds_claim item.id item.claim_token old)) [
        | inl t ↦ inr (
          old,
          i,
          held item old t,
          subst (Settled env item o old) (sym (ground (arith, was, t)))
              (finished-Settled env item o old),
        )
        | inr t ↦ inl (subst (λ x. In x rows) (ground (arith, was, t)) i)
      ]
]
