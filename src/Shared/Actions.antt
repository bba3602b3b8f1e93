-- ===== src/Shared/Actions.antt =====
-- Operations of a service over a store: they answer or fail, and leave a store either way.
use mathlib.Core.Path.{◌≡◌, refl}
use mathlib.Core.Bool.{Bool, true, false}
use mathlib.Core.Option.{Option, none, some}
use shearix_platform.Shared.Results.{Result, ok, err}

abbrev pub Action : Type 0 → Type 0 → Type 0 → Type 0
Action E S A = S → Result E A × S

unfoldable pub go_on : {E S A B : Type 0} → (A → Action E S B) → Result E A → S → Result E B × S
go_on next (err e) s = (err e, s)
go_on next (ok a) s = next a s

-- A call whose error is returned at once.
infixl 5 ◌>>=◌ ◌>>◌
unfoldable pub ◌>>=◌ : {E S A B : Type 0} → Action E S A → (A → Action E S B) → Action E S B
unfolding go_on
(op >>= next) s = let (r, s') = op s in go_on next r s'

unfoldable pub ◌>>◌ : {E S B : Type 0} → Action E S (Unit {0}) → Action E S B → Action E S B
unfolding ◌>>=◌
(op >> next) s = (op >>= (λ _. next)) s

unfoldable pub done : {E S A : Type 0} → A → Action E S A
done a s = (ok a, s)

unfoldable pub fail : {E S A : Type 0} → E → Action E S A
fail e s = (err e, s)

-- A computation that touches no store.
unfoldable pub checked : {E S A : Type 0} → Result E A → Action E S A
checked r s = (r, s)

-- An early return with the error if the test passes.
unfoldable pub stop_if : {E S : Type 0} → Bool → E → Action E S (Unit {0})
stop_if true e s = (err e, s)
stop_if false e s = (ok tt, s)

-- What a query finds in the store.
unfoldable pub query : {E S A : Type 0} → (S → A) → Action E S A
query f s = (ok (f s), s)

-- A change of the store.
unfoldable pub write : {E S : Type 0} → (S → S) → Action E S (Unit {0})
write f s = (ok tt, f s)

-- An answer that must be there.
unfoldable pub must : {E S A : Type 0} → E → Option A → Action E S A
must e none s = (err e, s)
must e (some a) s = (ok a, s)

unfoldable pub renamed : {E F A : Type 0} → (F → E) → Result F A → Result E A
renamed f (err x) = err (f x)
renamed f (ok a) = ok a

-- A call of another part, whose errors are put in the caller's terms.
unfoldable pub call : {E F S A : Type 0} → (F → E) → Action F S A → Action E S A
unfolding renamed
call f op s = let (r, s') = op s in (renamed f r, s')

-- `op` answers `a` in the store `s`.
abbrev pub Gives : {E S A : Type 0} → Action E S A → S → A → Type 0
Gives op s a = (op s).0 ≡ ok a

went_on :
    {E S A B : Type 0} (next : A → Action E S B) (r : Result E A) (s : S) (b : B)
    → (go_on next r s).0 ≡ ok b
    → (a : A) × (r ≡ ok a) × Gives (next a) s b × ((go_on next r s).1 ≡ (next a s).1)
unfolding go_on
went_on next (err e) s b h = absurd (cc)
went_on next (ok a) s b h = (a, refl, h, refl)

-- Inversion of a bind: what was answered first, and the rest from the store it left.
pub >>=-Gives :
    {E S A B : Type 0} (op : Action E S A) (next : A → Action E S B) (s : S) (b : B)
    → Gives (op >>= next) s b
    → (a : A) × Gives op s a
      × Gives (next a) (op s).1 b
      × (((op >>= next) s).1 ≡ (next a (op s).1).1)
unfolding ◌>>=◌
>>=-Gives op next s b h = went_on next (op s).0 (op s).1 b h

pub >>-Gives :
    {E S B : Type 0} (op : Action E S (Unit {0})) (next : Action E S B) (s : S) (b : B)
    → Gives (op >> next) s b
    → ((u : Unit {0}) × Gives op s u)
      × Gives next (op s).1 b
      × (((op >> next) s).1 ≡ (next (op s).1).1)
unfolding ◌>>◌
>>-Gives op next s b h =
    let (u, first, rest, left) = >>=-Gives op (λ _. next) s b h in ((u, first), rest, left)

-- A test that let the rest go on.
pub stop_if-Gives :
    {E S B : Type 0} (t : Bool) (e : E) (next : Action E S B) (s : S) (b : B)
    → Gives (stop_if t e >> next) s b
    → (t ≡ false) × Gives next s b × (((stop_if t e >> next) s).1 ≡ (next s).1)
unfolding ◌>>◌ ◌>>=◌ go_on stop_if
stop_if-Gives true e next s b h = absurd (cc)
stop_if-Gives false e next s b h = (refl, h, refl)

pub checked-Gives :
    {E S A B : Type 0} (r : Result E A) (next : A → Action E S B) (s : S) (b : B)
    → Gives (checked r >>= next) s b
    → (a : A) × (r ≡ ok a) × Gives (next a) s b × (((checked r >>= next) s).1 ≡ (next a s).1)
unfolding ◌>>=◌ go_on checked
checked-Gives (err e) next s b h = absurd (cc)
checked-Gives (ok a) next s b h = (a, refl, h, refl)

renamed-ok : {E F A : Type 0} (f : F → E) (r : Result F A) (a : A) → renamed f r ≡ ok a → r ≡ ok a
unfolding renamed
renamed-ok f (err x) a h = absurd (cc)
renamed-ok f (ok b) a h = cc

pub call-Gives :
    {E F S A : Type 0} (f : F → E) (op : Action F S A) (s : S) (a : A)
    → Gives (call f op) s a
    → Gives op s a
unfolding call
call-Gives f op s a h = renamed-ok f (op s).0 a h

pub query-Gives :
    {E S A B : Type 0} (f : S → A) (next : A → Action E S B) (s : S) (b : B)
    → Gives (query f >>= next) s b
    → Gives (next (f s)) s b × (((query f >>= next) s).1 ≡ (next (f s) s).1)
unfolding ◌>>=◌ go_on query
query-Gives f next s b h = (h, refl)

pub must-Gives :
    {E S A B : Type 0} (e : E) (o : Option A) (next : A → Action E S B) (s : S) (b : B)
    → Gives (must e o >>= next) s b
    → (a : A) × (o ≡ some a) × Gives (next a) s b × (((must e o >>= next) s).1 ≡ (next a s).1)
unfolding ◌>>=◌ go_on must
must-Gives e none next s b h = absurd (cc)
must-Gives e (some a) next s b h = (a, refl, h, refl)

pub write-Gives :
    {E S B : Type 0} (f : S → S) (next : Action E S B) (s : S) (b : B)
    → Gives (write f >> next) s b
    → Gives next (f s) b × (((write f >> next) s).1 ≡ (next (f s)).1)
unfolding ◌>>◌ ◌>>=◌ go_on write
write-Gives f next s b h = (h, refl)

pub done-Gives : {E S A : Type 0} (a : A) (s : S) (b : A) → Gives {E = E} (done a) s b → a ≡ b
unfolding done
done-Gives a s b h = cc
