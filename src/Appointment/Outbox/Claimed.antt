-- ===== src/Appointment/Outbox/Claimed.antt =====
-- What two claims hand to their publishers.
use shearix_platform.Shared.{
  ℕ, suc, zero, Bool, true, false, ◌≡◌, refl, List, [], ◌∷◌, map, select, take, In, here, there,
  select-In, if◌then◌else◌,
}
use shearix_platform.GoTime.{Time, before}
use shearix_platform.Appointment.Domain.{OutboxEvent}
use shearix_platform.Appointment.Store.{OutboxRow, Db}
use shearix_platform.Appointment.Outbox.{
  is_claimable, insert_by_age, by_age, clamp, candidates, event_of, claim_outbox,
}

In-take : {A : Type 0} {x : A} (n : ℕ) (xs : List A) → In x (take n xs) → In x xs
In-take zero xs m = elim m [ ]
In-take (suc n) [] m = elim m [ ]
In-take (suc n) (y ∷ ys) (here e) = here e
In-take (suc n) (y ∷ ys) (there m) = there (In-take n ys m)

later : {x r s : OutboxRow} {rest : List OutboxRow} → In x (r ∷ rest) → In x (r ∷ s ∷ rest)
later (here e) = here e
later (there k) = there (there k)

placed :
    {x r s : OutboxRow} {rest inserted : List OutboxRow} (b : Bool)
    → (In x inserted → In x (r ∷ rest))
    → In x (if b then s ∷ inserted else r ∷ s ∷ rest)
    → In x (r ∷ s ∷ rest)
placed true f (here e) = there (here e)
placed true f (there k) = later (f k)
placed false f k = k

In-insert :
    {x : OutboxRow} (r : OutboxRow) (rows : List OutboxRow)
    → In x (insert_by_age r rows)
    → In x (r ∷ rows)
unfolding insert_by_age
In-insert r [] m = m
In-insert {x} r (s ∷ rest) m =
    placed (before s.created_at r.created_at)
      (λ (k : In x (insert_by_age r rest)). In-insert r rest k) m

first_or_rest :
    {x r : OutboxRow} {rest sorted : List OutboxRow}
    → (In x sorted → In x rest)
    → In x (r ∷ sorted)
    → In x (r ∷ rest)
first_or_rest f (here e) = here e
first_or_rest f (there k) = there (f k)

In-by_age : {x : OutboxRow} (rows : List OutboxRow) → In x (by_age rows) → In x rows
unfolding by_age
In-by_age [] m = m
In-by_age {x} (r ∷ rest) m =
    first_or_rest (λ (k : In x (by_age rest)). In-by_age rest k) (In-insert r (by_age rest) m)

In-map_inv :
    {A B : Type 0} (f : A → B) (xs : List A) {y : B}
    → In y (map f xs)
    → (x : A) × In x xs × (y ≡ f x)
In-map_inv f [] m = elim m [ ]
In-map_inv f (x ∷ xs) (here e) = (x, here refl, e)
In-map_inv f (x ∷ xs) (there m) = let (z, k, e) = In-map_inv f xs m in (z, there k, e)

-- The row behind an event of a claim.
pub claim_outbox-row :
    (now : Time) (limit : ℕ) (db : Db) (e : OutboxEvent)
    → In e (claim_outbox now limit db).0
    → (r : OutboxRow) × In r (candidates now limit db.outbox)
      × (e ≡ event_of r)
      × In r db.outbox
      × (is_claimable now r ≡ true)
unfolding claim_outbox
claim_outbox-row now limit db e m =
    let (r, chosen, same) = In-map_inv event_of (candidates now limit db.outbox) m in
    let found =
      In-by_age (select (is_claimable now) db.outbox)
        (In-take (clamp limit) _ (unfold candidates in chosen)) in
    let (there_is, claimable) = select-In (is_claimable now) db.outbox found in
    (r, chosen, same, there_is, claimable)
