-- ===== src/Platform/Transactions.antt =====
-- platform/db/tenant.go: WithTenantTx over any store. The body's writes stay only if it answers and
-- the commit succeeds.
pub mod Keeping
use shearix_platform.Shared.{Bool, ◌≡◌, refl, Result, ok, err}
use shearix_platform.Shared.Actions.{
  Action, ◌>>=◌, ◌>>◌, done, stop_if, go_on, Gives, >>=-Gives, stop_if-Gives,
}

-- The deferred rollback.
unfoldable pub rolled_back : {E S A : Type 0} → Result E A → S → S → S
rolled_back (err e) before_it after_it = before_it
rolled_back (ok a) before_it after_it = after_it

unfoldable pub atomic : {E S A : Type 0} → Action E S A → Action E S A
unfolding rolled_back
atomic op s = let (r, s') = op s in (r, rolled_back r s s')

-- Begin, set_config, the body, and the commit.
unfoldable pub transaction : {E S A : Type 0} → Bool → Bool → E → Action E S A → Action E S A
unfolding atomic ◌>>=◌ ◌>>◌ done stop_if
transaction begin_fails commit_fails e body =
    atomic (do stop_if begin_fails e; a ← body; stop_if commit_fails e; done a)

rolled_back-err :
    {E S A : Type 0} (r : Result E A) (e : E) (s s' : S) → r ≡ err e → rolled_back r s s' ≡ s
unfolding rolled_back
rolled_back-err (err x) e s s' h = refl
rolled_back-err (ok a) e s s' h = absurd (cc)

rolled_back-ok :
    {E S A : Type 0} (r : Result E A) (a : A) (s s' : S) → r ≡ ok a → rolled_back r s s' ≡ s'
unfolding rolled_back
rolled_back-ok (err x) a s s' h = absurd (cc)
rolled_back-ok (ok b) a s s' h = refl

-- A transaction with an error leaves the store as it was.
pub transaction-err :
    {E S A : Type 0} (b c : Bool) (x : E) (body : Action E S A) (s : S) (e : E)
    → (transaction b c x body s).0 ≡ err e
    → (transaction b c x body s).1 ≡ s
unfolding transaction atomic
transaction-err b c x body s e h = rolled_back-err _ e s _ h

-- `P` holds in the store after the operation, whatever it answers, if it held before.
pub record Keeps {E S A : Type 0} (P : S → Type 0) (op : Action E S A) : Type 0 where
  pub at : (s : S) → P s → P (op s).1
