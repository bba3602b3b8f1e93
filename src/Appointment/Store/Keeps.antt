-- ===== src/Appointment/Store/Keeps.antt =====
-- Reasoning about the parts of a transaction: what an answer tells, and what all parts keep.
use shearix_platform.Shared.{
  Bool, true, false, ◌≡◌, refl, sym, subst, ◌⊎◌, inl, inr, Bool-cases, Option, none, some, Result,
  ok, err, arith, if◌then◌else◌,
}
use shearix_platform.Appointment.Store.{
  Db, RepoError, Stmt, Env, begin_tx, commit_tx, database, read, expect, Tx, ◌>>=◌, ◌>>◌, pure,
  raise, send, raise_if, settle, with_tenant_tx,
}

-- `m` answers `a` on `db` and leaves `db'`.
abbrev pub Answers : {A : Type 0} → Tx A → Db → A → Db → Type 0
Answers m db a db' = m db ≡ ok (a, db')

bound :
    {A B : Type 0} (r : Result RepoError (A × Db)) (f : A → Tx B) (b : B) (db'' : Db)
    → (elim r [ err e ↦ err e | ok (a, db') ↦ f a db' ]) ≡ ok (b, db'')
    → (a : A) × ((db' : Db) × (r ≡ ok (a, db')) × (f a db' ≡ ok (b, db'')))
bound (ok (a, db')) f b db'' h = (a, (db', refl, h))
bound (err e) f b db'' h = absurd (cc)

-- Inversion of a bind.
pub >>=-Answers :
    {A B : Type 0} (m : Tx A) (f : A → Tx B) (db : Db) (b : B) (db'' : Db)
    → Answers (m >>= f) db b db''
    → (a : A) × ((db' : Db) × Answers m db a db' × Answers (f a) db' b db'')
>>=-Answers m f db b db'' h = bound (m db) f b db'' h

-- A test that let the rest go on changed nothing.
pub raise_if_then :
    {A : Type 0} (b : Bool) (e : RepoError) (k : Tx A) (db : Db) (a : A) (db' : Db)
    → Answers (raise_if b e >> k) db a db'
    → (b ≡ false) × Answers k db a db'
raise_if_then true e k db a db' h = absurd (cc)
raise_if_then false e k db a db' h = (refl, h)

-- So did a statement that was sent.
pub send_then :
    {A : Type 0} (env : Env) (s : Stmt) (k : Tx A) (db : Db) (a : A) (db' : Db)
    → Answers (send env s >> k) db a db'
    → (env.fails s ≡ false) × Answers k db a db'
send_then env s k db a db' h = raise_if_then (env.fails s) database k db a db' h

pub expect-Answers :
    {A : Type 0} (e : RepoError) (o : Option A) (db : Db) (a : A) (db' : Db)
    → Answers (expect e o) db a db'
    → (o ≡ some a) × (db' ≡ db)
expect-Answers e none db a db' h = absurd (cc)
expect-Answers e (some b) db a db' h = (ground arith, ground arith)

pub pure-Answers :
    {A : Type 0} (b : A) (db : Db) (a : A) (db' : Db)
    → Answers (pure b) db a db'
    → (a ≡ b) × (db' ≡ db)
pure-Answers b db a db' h = (ground arith, ground arith)

pub expect_then :
    {A B : Type 0} (e : RepoError) (o : Option A) (k : A → Tx B) (db : Db) (b : B) (db' : Db)
    → Answers (expect e o >>= k) db b db'
    → (a : A) × (o ≡ some a) × Answers (k a) db b db'
expect_then e none k db b db' h = absurd (cc)
expect_then e (some a) k db b db' h = (a, refl, h)

settle-cases :
    {A : Type 0} (env : Env) (db : Db) (r : Result RepoError (A × Db))
    → ((settle env db r).1 ≡ db) ⊎ ((a : A) × (r ≡ ok (a, (settle env db r).1)))
unfolding settle
settle-cases env db (err e) = inl refl
settle-cases env db (ok (a, db')) = elim (Bool-cases (env.fails commit_tx)) [
  | inl f ↦ elim (Bool-cases env.committed_unheard) [
    | inl c ↦ inr (a, rw (f, c) refl)
    | inr c ↦ inl (rw (f, c) refl)
  ]
  | inr f ↦ inr (a, rw f refl)
]

settle-ok :
    {A : Type 0} (env : Env) (db : Db) (r : Result RepoError (A × Db)) (a : A)
    → (settle env db r).0 ≡ ok a
    → r ≡ ok (a, (settle env db r).1)
unfolding settle
settle-ok env db (err e') a h = absurd (cc)
settle-ok env db (ok (a', db')) a h = elim (Bool-cases (env.fails commit_tx)) [
  | inl f ↦ absurd (cc (rw f at h))
  | inr f ↦ rw f (ground (arith, rw f at h))
]

-- A transaction leaves the tables as they were, or its body has an answer and they are those that the
-- body leaves.
pub with_tenant_tx-cases :
    {A : Type 0} (env : Env) (body : Tx A) (db : Db)
    → ((with_tenant_tx env body db).1 ≡ db)
      ⊎ ((a : A) × Answers body db a (with_tenant_tx env body db).1)
unfolding with_tenant_tx
with_tenant_tx-cases env body db = elim (settle-cases env db _) [
  | inl e ↦ inl e
  | inr (a, e) ↦ inr (a, (send_then env begin_tx body db a _ e).1)
]

-- The parts of a transaction that has an answer.
pub with_tenant_tx-ok :
    {A : Type 0} (env : Env) (body : Tx A) (db : Db) (a : A)
    → (with_tenant_tx env body db).0 ≡ ok a
    → Answers body db a (with_tenant_tx env body db).1
unfolding with_tenant_tx
with_tenant_tx-ok env body db a h = (send_then env begin_tx body db a _ (settle-ok env db _ a h)).1

-- Two tests that let a write happen.
pub write-Answers :
    (b c : Bool) (e f : RepoError) (db' : Db) (a : Unit {0}) (db'' : Db)
    → ◌≡◌ {A = Result RepoError (Unit {0} × Db)}
        (if b then err e else if c then err f else ok (tt, db'))
        (ok (a, db''))
    → (b ≡ false) × (c ≡ false) × (db'' ≡ db')
write-Answers true c e f db' a db'' h = absurd (cc)
write-Answers false true e f db' a db'' h = absurd (cc)
write-Answers false false e f db' a db'' h = (refl, refl, ground arith)

-- Whatever answer `m` gives, it leaves tables with `P`, if it found such.
pub record Keeps {A : Type 0} (P : Db → Type 0) (m : Tx A) : Type 0 where
  pub at : (db : Db) → P db → (a : A) (db' : Db) → Answers m db a db' → P db'

module _ {P : Db → Type 0} where
  pub Keeps-pure : {A : Type 0} (a : A) → Keeps P (pure a)
  Keeps-pure a = record { at = λ db h b db' e. subst P (ground arith) h }

  pub Keeps-raise : {A : Type 0} (e : RepoError) → Keeps P (raise {A = A} e)
  Keeps-raise e = record { at = λ db h b db' k. absurd (cc) }

  pub Keeps-raise_if : (b : Bool) (e : RepoError) → Keeps P (raise_if b e)
  Keeps-raise_if true e = record { at = λ db h b db' k. absurd (cc) }
  Keeps-raise_if false e = record { at = λ db h b db' k. subst P (ground arith) h }

  pub Keeps-read : {A : Type 0} (f : Db → A) → Keeps P (read f)
  Keeps-read f = record { at = λ db h b db' e. subst P (ground arith) h }

  pub Keeps-expect : {A : Type 0} (e : RepoError) (o : Option A) → Keeps P (expect e o)
  Keeps-expect e none = Keeps-raise e
  Keeps-expect e (some a) = Keeps-pure a

  pub Keeps-bind :
      {A B : Type 0} (m : Tx A) (f : A → Tx B)
      → Keeps P m
      → ((a : A) → Keeps P (f a))
      → Keeps P (m >>= f)
  Keeps-bind m f km kf = record {
    at = λ db h b db'' e.
        let (a, (db', e', e'')) = >>=-Answers m f db b db'' e in
        (kf a).at db' (km.at db h a db' e') b db'' e'';
  }

  pub Keeps-if :
      {A : Type 0} (b : Bool) (m n : Tx A) → Keeps P m → Keeps P n → Keeps P (if b then m else n)
  Keeps-if true m n km kn = km
  Keeps-if false m n km kn = kn

  -- A transaction keeps what its body keeps, however it ends.
  pub Keeps-with_tenant_tx :
      {A : Type 0} (env : Env) (body : Tx A) (db : Db)
      → Keeps P body
      → P db
      → P (with_tenant_tx env body db).1
  Keeps-with_tenant_tx env body db k h = elim (with_tenant_tx-cases env body db) [
    | inl e ↦ subst P (sym e) h
    | inr (a, e) ↦ k.at db h a _ e
  ]

pub ruleset keeps_rules =
    (Keeps-pure, Keeps-raise, Keeps-raise_if, Keeps-read, Keeps-expect, Keeps-bind, Keeps-if)
