-- ===== src/Platform/Transactions/Keeping.antt =====
-- What an operation keeps of its store: one rule for each form of an operation.
use shearix_platform.Shared.{Bool, true, false, Option, none, some, ◌≡◌, refl, Result, ok, err}
use shearix_platform.Shared.Actions.{
  Action, ◌>>=◌, ◌>>◌, Gives, done, fail, stop_if, go_on, query, write, must, call,
}
use shearix_platform.Platform.Transactions.{Keeps, rolled_back, atomic, transaction}

go_on-Keeps :
    {E S A B : Type 0} (P : S → Type 0) (next : A → Action E S B) (r : Result E A) (s : S)
    → ((a : A) → r ≡ ok a → Keeps P (next a))
    → P s
    → P (go_on next r s).1
unfolding go_on
go_on-Keeps P next (err e) s h p = p
go_on-Keeps P next (ok a) s h p = (h a refl).at s p

module _ {E S A B : Type 0} (P : S → Type 0) where
  pub Keeps->>= :
      (op : Action E S A) (next : A → Action E S B)
      → Keeps P op
      → ((a : A) → Keeps P (next a))
      → Keeps P (op >>= next)
  unfolding ◌>>=◌
  Keeps->>= op next k h = record {
    at = λ s p. go_on-Keeps P next (op s).0 (op s).1 (λ a e. h a) (k.at s p);
  }

  pub Keeps-must :
      (e : E) (o : Option A) (next : A → Action E S B)
      → ((a : A) → o ≡ some a → Keeps P (next a))
      → Keeps P (must e o >>= next)
  unfolding ◌>>=◌ go_on must
  Keeps-must e none next h = record { at = λ s p. p }
  Keeps-must e (some a) next h = h a refl

  pub Keeps-query :
      (f : S → A) (next : A → Action E S B)
      → ((a : A) → Keeps P (next a))
      → Keeps P (query f >>= next)
  unfolding ◌>>=◌ go_on query
  Keeps-query f next h = record { at = λ s p. (h (f s)).at s p }

module _ {E S B : Type 0} (P : S → Type 0) where
  pub Keeps->> :
      (op : Action E S (Unit {0})) (next : Action E S B)
      → Keeps P op
      → Keeps P next
      → Keeps P (op >> next)
  unfolding ◌>>◌
  Keeps->> op next k h = Keeps->>= P op (λ _. next) k (λ _. h)

  pub Keeps-guard :
      (t : Bool) (e : E) (next : Action E S B)
      → (t ≡ false → Keeps P next)
      → Keeps P (stop_if t e >> next)
  unfolding ◌>>◌ ◌>>=◌ go_on stop_if
  Keeps-guard true e next h = record { at = λ s p. p }
  Keeps-guard false e next h = h refl

  pub Keeps-done : (b : B) → Keeps {E = E} P (done b)
  unfolding done
  Keeps-done b = record { at = λ s p. p }

  pub Keeps-fail : (e : E) → Keeps {A = B} P (fail e)
  unfolding fail
  Keeps-fail e = record { at = λ s p. p }

  pub Keeps-reads : (f : S → B) → Keeps {E = E} P (query f)
  unfolding query
  Keeps-reads f = record { at = λ s p. p }

  pub Keeps-asked : (e : E) (o : Option B) → Keeps P (must e o)
  unfolding must
  Keeps-asked e none = record { at = λ s p. p }
  Keeps-asked e (some b) = record { at = λ s p. p }

  rolled_back-Keeps : (r : Result E B) (s s' : S) → P s → P s' → P (rolled_back r s s')
  unfolding rolled_back
  rolled_back-Keeps (err e) s s' p p' = p
  rolled_back-Keeps (ok b) s s' p p' = p'

  pub Keeps-transaction :
      (b c : Bool) (x : E) (body : Action E S B) → Keeps P body → Keeps P (transaction b c x body)
  unfolding transaction atomic
  Keeps-transaction b c x body k = record { at = λ s p. rolled_back-Keeps _ s _ p (inside.at s p) }
    where
      inside : Keeps P (do stop_if b x; a ← body; stop_if c x; done a)
      inside =
          Keeps-guard b x _
            (λ e. Keeps->>= P body _ k (λ a. Keeps-guard c x _ (λ e'. Keeps-done a)))

module _ {E S : Type 0} (P : S → Type 0) where
  pub Keeps-stop_if : (t : Bool) (e : E) → Keeps {S = S} P (stop_if t e)
  unfolding stop_if
  Keeps-stop_if true e = record { at = λ s p. p }
  Keeps-stop_if false e = record { at = λ s p. p }

  pub Keeps-write : (f : S → S) → ((s : S) → P s → P (f s)) → Keeps {E = E} P (write f)
  unfolding write
  Keeps-write f h = record { at = h }

pub Keeps-call :
    {E F S A : Type 0} (P : S → Type 0) (f : F → E) (op : Action F S A)
    → Keeps P op
    → Keeps P (call f op)
unfolding call
Keeps-call P f op k = record { at = λ s p. k.at s p }

pub ruleset keeps_rules = (
  Keeps-transaction, Keeps-guard, Keeps-must, Keeps-query, Keeps->>, Keeps->>=, Keeps-done,
  Keeps-fail, Keeps-reads, Keeps-asked, Keeps-stop_if,
)

-- What an operation leaves, from one store.
abbrev pub Leaves : {E S A : Type 0} → Action E S A → S → (S → Type 0) → Type 0
Leaves op s Q = Q (op s).1

pub guard-Leaves :
    {E S B : Type 0} (Q : S → Type 0) (t : Bool) (e : E) (next : Action E S B) (s : S)
    → Q s
    → (t ≡ false → Leaves next s Q)
    → Leaves (stop_if t e >> next) s Q
unfolding ◌>>◌ ◌>>=◌ go_on stop_if
guard-Leaves Q true e next s q h = q
guard-Leaves Q false e next s q h = h refl

pub must-Leaves :
    {E S A B : Type 0} (Q : S → Type 0) (e : E) (o : Option A) (next : A → Action E S B) (s : S)
    → Q s
    → ((a : A) → o ≡ some a → Leaves (next a) s Q)
    → Leaves (must e o >>= next) s Q
unfolding ◌>>=◌ go_on must
must-Leaves Q e none next s q h = q
must-Leaves Q e (some a) next s q h = h a refl

pub bind-Leaves :
    {E S A B : Type 0} (Q : S → Type 0) (op : Action E S A) (next : A → Action E S B) (s : S)
    → Leaves op s Q
    → ((a : A) → Gives op s a → Leaves (next a) (op s).1 Q)
    → Leaves (op >>= next) s Q
unfolding ◌>>=◌ go_on
bind-Leaves {E} {S} {A} {B} Q op next s q h = go (op s).0 q h
  where
    go :
        (r : Result E A)
        → Q (op s).1
        → ((a : A) → r ≡ ok a → Leaves (next a) (op s).1 Q)
        → Q (go_on next r (op s).1).1
    go (err e) q h = q
    go (ok a) q h = h a refl

pub transaction-Leaves :
    {E S B : Type 0} (Q : S → Type 0) (b c : Bool) (x : E) (body : Action E S B) (s : S)
    → Q s
    → Leaves body s Q
    → Leaves (transaction b c x body) s Q
unfolding transaction atomic done
transaction-Leaves {E} {S} {B} Q b c x body s q h = rolled_back-Keeps Q _ s _ q (
    guard-Leaves Q b x _ s q (λ e.
      bind-Leaves Q body _ s h (λ a g. guard-Leaves Q c x _ (body s).1 h (λ e'. finished a h))))
  where
    finished : (a : B) → Q (body s).1 → Leaves {E = E} (done a) (body s).1 Q
    finished a h = h

-- What holds of the answer and of the store that is left, if there is an answer.
pub record Ensures {E S A : Type 0} (Q : A → S → Type 0) (op : Action E S A) : Type 0 where
  pub told : (s : S) (a : A) → Gives op s a → Q a (op s).1

go_on-Ensures :
    {E S A B : Type 0} (Q : B → S → Type 0) (next : A → Action E S B) (r : Result E A) (s : S)
    (b : B)
    → ((a : A) → r ≡ ok a → Ensures Q (next a))
    → (go_on next r s).0 ≡ ok b
    → Q b (go_on next r s).1
unfolding go_on
go_on-Ensures Q next (err e) s b k h = absurd (cc)
go_on-Ensures Q next (ok a) s b k h = (k a refl).told s b h

module _ {E S A B : Type 0} (Q : B → S → Type 0) where
  pub Ensures->>= :
      (op : Action E S A) (next : A → Action E S B)
      → ((a : A) → Ensures Q (next a))
      → Ensures Q (op >>= next)
  unfolding ◌>>=◌
  Ensures->>= op next k = record {
    told = λ s b h. go_on-Ensures Q next (op s).0 (op s).1 b (λ a e. k a) h;
  }

  pub Ensures-must :
      (e : E) (o : Option A) (next : A → Action E S B)
      → ((a : A) → o ≡ some a → Ensures Q (next a))
      → Ensures Q (must e o >>= next)
  unfolding ◌>>=◌ go_on must
  Ensures-must e none next k = record { told = λ s b h. absurd (cc) }
  Ensures-must e (some a) next k = k a refl

module _ {E S B : Type 0} (Q : B → S → Type 0) where
  pub Ensures-guard :
      (t : Bool) (e : E) (next : Action E S B)
      → (t ≡ false → Ensures Q next)
      → Ensures Q (stop_if t e >> next)
  unfolding ◌>>◌ ◌>>=◌ go_on stop_if
  Ensures-guard true e next k = record { told = λ s b h. absurd (cc) }
  Ensures-guard false e next k = k refl

pub ruleset ensures_rules = (Ensures-guard, Ensures-must, Ensures->>=)
