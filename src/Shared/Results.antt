-- ===== src/Shared/Results.antt =====
-- An answer or an error, Go's pair `(value, error)` with exactly one of them set.
use mathlib.Core.Path.{◌≡◌, refl}
use mathlib.Core.Logic.{◌⊎◌, inl, inr}
use mathlib.Core.Bool.{Bool, true, false}

pub data Result {ℓ} (E A : Type ℓ) : Type ℓ where
  err : E → Result E A
  ok : A → Result E A

-- The statements after a call whose error is returned at once.
infixl 5 ◌>>=◌ ◌>>◌
abbrev pub ◌>>=◌ : {E A B : Type 0} → Result E A → (A → Result E B) → Result E B
r >>= next = elim r [ err e ↦ err e | ok a ↦ next a ]

abbrev pub ◌>>◌ : {E B : Type 0} → Result E (Unit {0}) → Result E B → Result E B
r >> next = elim r [ err e ↦ err e | ok _ ↦ next ]

-- An early return with the error if the test passes.
abbrev pub refuse_if : {E : Type 0} → Bool → E → Result E (Unit {0})
refuse_if false e = ok tt
refuse_if true e = err e

-- The answer, or an error of the caller's own whatever the cause was.
abbrev pub or_error : {E F A : Type 0} → F → Result E A → Result F A
or_error f (err e) = err f
or_error f (ok a) = ok a

-- The answer, or the error in the caller's terms.
abbrev pub mapped : {E F A : Type 0} → (E → F) → Result E A → Result F A
mapped f (err e) = err (f e)
mapped f (ok a) = ok a

pub bind-ok :
    {E A B : Type 0} (r : Result E A) (next : A → Result E B) {b : B}
    → (r >>= next) ≡ ok b
    → (a : A) × (r ≡ ok a) × (next a ≡ ok b)
bind-ok (err e) next h = absurd (cc)
bind-ok (ok a) next h = (a, refl, h)

-- A test that did not refuse.
pub refuse_if-ok :
    {E B : Type 0} (t : Bool) (e : E) (next : Result E B) {b : B}
    → (refuse_if t e >> next) ≡ ok b
    → (t ≡ false) × (next ≡ ok b)
refuse_if-ok false e next h = (refl, h)
refuse_if-ok true e next h = absurd (cc)

pub or_error-ok : {E F A : Type 0} (f : F) (r : Result E A) {a : A} → or_error f r ≡ ok a → r ≡ ok a
or_error-ok f (err e) h = absurd (cc)
or_error-ok f (ok a) h = cc

pub mapped-ok : {E F A : Type 0} (f : E → F) (r : Result E A) {a : A} → mapped f r ≡ ok a → r ≡ ok a
mapped-ok f (err e) h = absurd (cc)
mapped-ok f (ok a) h = cc

pub Result-cases {ℓ} :
    {E A : Type ℓ} (r : Result E A) → ((a : A) × (r ≡ ok a)) ⊎ ((e : E) × (r ≡ err e))
Result-cases (err e) = inr (e, refl)
Result-cases (ok a) = inl (a, refl)
