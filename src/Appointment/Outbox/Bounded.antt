-- ===== src/Appointment/Outbox/Bounded.antt =====
-- The bounded retry: each failed publication of an event counts, and the twentieth is the last.
use mathlib.Core.Option
use shearix_platform.Shared.{
  ℕ, ◌+◌, Bool, true, false, ◌&&◌, not, ◌≡◌, refl, sym, subst, ap, ◌∙◌, any, first-some, some, List,
  [], ◌∷◌, first, leb, ltb, ◌==◌, inl, inr, Bool-cases, if◌then◌else◌, arith,
}
use shearix_platform.GoTime.{Time}
use shearix_platform.Platform.Ids.{Uuid}
use shearix_platform.Appointment.Domain.{OutboxEvent}
use shearix_platform.Appointment.Store.{OutboxRow, Db}
use shearix_platform.Appointment.Outbox.{
  is_null, is_open, update_where, claimed_row, published_row, released_row, candidates,
  claim_outbox, mark_outbox_published, release_outbox, Attempt, publish_one,
}

-- A step of a publisher: it claims a batch, or publishes one event.
pub data Step : Type 0 where
  claims : Time → ℕ → Step
  publishes : Attempt → OutboxEvent → Step

unfoldable pub step : Step → Db → Db
step (claims now limit) db = (claim_outbox now limit db).1
step (publishes a e) db = publish_one a e db

-- Any number of publishers, their steps in the order in which they take place.
unfoldable pub steps : List Step → Db → Db
unfolding step
steps [] db = db
steps (s ∷ rest) db = steps rest (step s db)

-- The publications of the event that the broker did not take and whose release was written.
unfoldable pub refusals : Uuid → List Step → ℕ
refusals id [] = 0
refusals id (claims now limit ∷ rest) = refusals id rest
refusals id (publishes a e ∷ rest) =
    (if id == e.id && not a.delivered && not a.statement_fails then 1 else 0) + refusals id rest

-- No step marks the event as published.
unfoldable pub never_marked : Uuid → List Step → Bool
never_marked id [] = true
never_marked id (claims now limit ∷ rest) = never_marked id rest
never_marked id (publishes a e ∷ rest) =
    not (id == e.id && a.delivered && not a.statement_fails) && never_marked id rest

-- The event waits in the outbox and was tried `n` times: it is terminal if and only if `n` has reached
-- twenty.
pub record IsTried (id : Uuid) (n : ℕ) (db : Db) : Type 0 where
  pub row : OutboxRow
  pub found : first (is_open id) db.outbox ≡ some row
  pub tried : row.publish_attempts ≡ n
  pub alive : is_null row.failed_at ≡ ltb n 20

first-update :
    (q p : OutboxRow → Bool) (f : OutboxRow → OutboxRow)
    → ((r : OutboxRow) → p r ≡ true → q (f r) ≡ q r)
    → (rows : List OutboxRow)
    → first q (update_where p f rows) ≡ Option.map (λ r. if p r then f r else r) (first q rows)
unfolding first update_where
first-update q p f same [] = refl
first-update q p f same (r ∷ rest) = elim (Bool-cases (p r)) [
  | inl e ↦ elim (Bool-cases (q r)) [
    | inl t ↦ rw (e, same r e, t, e) refl
    | inr t ↦ rw (e, same r e, t) (first-update q p f same rest)
  ]
  | inr e ↦ elim (Bool-cases (q r)) [
    | inl t ↦ rw (e, t, e) refl
    | inr t ↦ rw (e, t) (first-update q p f same rest)
  ]
]

found_spared :
    (id : Uuid) (p : OutboxRow → Bool) (f : OutboxRow → OutboxRow) (rows : List OutboxRow)
    (row : OutboxRow)
    → ((r : OutboxRow) → p r ≡ true → is_open id (f r) ≡ is_open id r)
    → first (is_open id) rows ≡ some row
    → p row ≡ false
    → first (is_open id) (update_where p f rows) ≡ some row
found_spared id p f rows row same h e =
    first-update (is_open id) p f same rows ∙ rw h (ap (λ b. some (if b then f row else row)) e)

found_changed :
    (id : Uuid) (p : OutboxRow → Bool) (f : OutboxRow → OutboxRow) (rows : List OutboxRow)
    (row : OutboxRow)
    → ((r : OutboxRow) → p r ≡ true → is_open id (f r) ≡ is_open id r)
    → first (is_open id) rows ≡ some row
    → p row ≡ true
    → first (is_open id) (update_where p f rows) ≡ some (f row)
found_changed id p f rows row same h e =
    first-update (is_open id) p f same rows ∙ rw h (ap (λ b. some (if b then f row else row)) e)

-- The row that was found has the id and is not published.
open_parts :
    (id : Uuid) (r : OutboxRow)
    → is_open id r ≡ true
    → ((r.id == id) ≡ true) × (is_null r.published_at ≡ true)
unfolding is_open
open_parts id r h = ground arith

not_open :
    (id other : Uuid) (r : OutboxRow)
    → (id == other) ≡ false
    → is_open id r ≡ true
    → is_open other r ≡ false
unfolding is_open
not_open id other r d h = ground arith

open_same :
    (id other : Uuid) (r : OutboxRow) → (id == other) ≡ true → is_open id r ≡ is_open other r
unfolding is_open
open_same id other r e = ground arith

published_apart :
    (id other : Uuid) (now : Time) (r : OutboxRow)
    → (id == other) ≡ false
    → is_open other r ≡ true
    → is_open id (published_row now r) ≡ is_open id r
unfolding is_open
published_apart id other now r d h = ground arith

released_alive :
    (now : Time) (r : OutboxRow) (n : ℕ)
    → r.publish_attempts ≡ n
    → is_null r.failed_at ≡ ltb n 20
    → is_null (released_row now r).failed_at ≡ ltb (n + 1) 20
released_alive now r n t h = elim (Bool-cases (leb 20 (r.publish_attempts + 1))) [
  | inl e ↦ rw e (ground (arith, e, t))
  | inr e ↦ rw e (ground (arith, e, t, h))
]

claim-IsTried :
    (id : Uuid) (n : ℕ) (now : Time) (limit : ℕ) (db : Db)
    → IsTried id n db
    → IsTried id n (claim_outbox now limit db).1
unfolding claim_outbox
claim-IsTried id n now limit db h =
    let chosen =
      λ (r : OutboxRow). any (λ (c : OutboxRow). c.id == r.id) (candidates now limit db.outbox) in
    let same : (r : OutboxRow) → chosen r ≡ true → is_open id (claimed_row now r) ≡ is_open id r =
      λ r e. unfold is_open in refl in
    elim (Bool-cases (chosen h.row)) [
      | inl e ↦ record {
        row = claimed_row now h.row;
        found = found_changed id chosen (claimed_row now) db.outbox h.row same h.found e;
        tried = h.tried;
        alive = h.alive;
      }
      | inr e ↦ record {
        row = h.row;
        found = found_spared id chosen (claimed_row now) db.outbox h.row same h.found e;
        tried = h.tried;
        alive = h.alive;
      }
    ]

mark-IsTried :
    (id other : Uuid) (n : ℕ) (now : Time) (db : Db)
    → (id == other) ≡ false
    → IsTried id n db
    → IsTried id n (mark_outbox_published now other db)
unfolding mark_outbox_published
mark-IsTried id other n now db d h = record {
  row = h.row;
  found =
      found_spared id (is_open other) (published_row now) db.outbox h.row
        (λ r e. published_apart id other now r d e) h.found
        (not_open id other h.row d (first-some (is_open id) db.outbox h.found).0);
  tried = h.tried;
  alive = h.alive;
}

-- A release counts for its own event only.
release-IsTried :
    (id other : Uuid) (n : ℕ) (now : Time) (db : Db)
    → IsTried id n db
    → IsTried id (n + (if id == other then 1 else 0)) (release_outbox now other db).1
unfolding release_outbox
release-IsTried id other n now db h =
    let same : (r : OutboxRow)
        → is_open other r ≡ true
        → is_open id (released_row now r) ≡ is_open id r =
      λ r e. unfold is_open in refl in
    let waits = (first-some (is_open id) db.outbox h.found).0 in
    elim (Bool-cases (id == other)) [
      | inl e ↦ rw e (record {
        row = released_row now h.row;
        found =
            found_changed id (is_open other) (released_row now) db.outbox h.row same h.found
              (sym (open_same id other h.row e) ∙ waits);
        tried = ap (λ k. k + 1) h.tried;
        alive = released_alive now h.row n h.tried h.alive;
      })
      | inr e ↦ rw e (record {
        row = h.row;
        found =
            found_spared id (is_open other) (released_row now) db.outbox h.row same h.found
              (not_open id other h.row e waits);
        tried = ground (arith, h.tried);
        alive = ground (arith, h.alive);
      })
    ]

publish_one-IsTried :
    (id : Uuid) (n : ℕ) (a : Attempt) (e : OutboxEvent) (db : Db)
    → (id == e.id && a.delivered && not a.statement_fails) ≡ false
    → IsTried id n db
    → IsTried id
        (n + (if id == e.id && not a.delivered && not a.statement_fails then 1 else 0))
        (publish_one a e db)
unfolding publish_one
publish_one-IsTried id n a e db unmarked h = elim (Bool-cases a.statement_fails) [
  | inl f ↦ rw f (subst (λ k. IsTried id k db) (ground arith) h)
  | inr f ↦ elim (Bool-cases a.delivered) [
    | inl d ↦
        rw (f, d)
          (subst (λ k. IsTried id k (mark_outbox_published a.now e.id db)) (ground arith)
            (mark-IsTried id e.id n a.now db (ground (arith, unmarked, f, d)) h))
    | inr d ↦
        rw (f, d)
          (subst (λ k. IsTried id k (release_outbox a.now e.id db).1) (ground arith)
            (release-IsTried id e.id n a.now db h))
  ]
]

both : (b c : Bool) → (not b && c) ≡ true → (b ≡ false) × (c ≡ true)
both b c h = ground arith

-- Of an event that waits in the outbox and that no step marks as published, every publication that the
-- broker did not take and whose release was written counts as one attempt, and nothing else does,
-- whatever the publishers claim and publish in between; and the event is terminal from the twentieth
-- attempt on, and not before.
pub steps-IsTried :
    (id : Uuid) (n : ℕ) (taken : List Step) (db : Db)
    → never_marked id taken ≡ true
    → IsTried id n db
    → IsTried id (n + refusals id taken) (steps taken db)
unfolding steps step refusals never_marked
steps-IsTried id n [] db m h = subst (λ k. IsTried id k db) (omega arith) h
steps-IsTried id n (claims now limit ∷ rest) db m h =
    steps-IsTried id n rest (claim_outbox now limit db).1 m (claim-IsTried id n now limit db h)
steps-IsTried id n (publishes a e ∷ rest) db m h =
    let (unmarked, later) = both (id == e.id && a.delivered && not a.statement_fails) _ m in
    let counted = if id == e.id && not a.delivered && not a.statement_fails then 1 else 0 in
    subst (λ k. IsTried id k (steps rest (publish_one a e db))) (omega arith)
      (steps-IsTried id (n + counted) rest (publish_one a e db) later
        (publish_one-IsTried id n a e db unmarked h))
