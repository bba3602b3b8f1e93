-- ===== src/Shared/Lists.antt =====
-- Lists measured by native numbers, membership as a family that can be matched, and filtering by
-- a Boolean test.
use Prim.Native.Nat.{ℕ, zero, suc}
use mathlib.Core.Path.{◌≡◌, refl, sym, subst}
use mathlib.Core.Logic.{◌⊎◌, inl, inr}
use mathlib.Core.Bool.{Bool, true, false}
use mathlib.Core.Option.{Option, none, some}
use mathlib.Core.List.{List, [], ◌∷◌, ◌++◌}
use native.Mathlib.Omega.{arith}
use shearix_platform.Shared.Tests.{if◌then◌else◌, Bool-cases}

module _ {ℓ} {A : Type ℓ} where
  abbrev pub length : List A → ℕ
  length [] = 0
  length (x ∷ xs) = suc (length xs)

  abbrev pub take : ℕ → List A → List A
  take zero xs = []
  take (suc n) [] = []
  take (suc n) (x ∷ xs) = x ∷ take n xs

  -- Whether some element passes the test.
  unfoldable pub any : (A → Bool) → List A → Bool
  any p [] = false
  any p (x ∷ xs) = if p x then true else any p xs

  -- Whether every element passes the test.
  unfoldable pub all : (A → Bool) → List A → Bool
  all p [] = true
  all p (x ∷ xs) = if p x then all p xs else false

  -- The elements that pass the test, in their order.
  unfoldable pub select : (A → Bool) → List A → List A
  select p [] = []
  select p (x ∷ xs) = if p x then x ∷ select p xs else select p xs

  -- The first element that passes the test.
  unfoldable pub first : (A → Bool) → List A → Option A
  first p [] = none
  first p (x ∷ xs) = if p x then some x else first p xs

  -- `x` stands in the list; a derivation says where.
  pub data In (x : A) : List A → Type ℓ where
    here : {y : A} {ys : List A} → x ≡ y → In x (y ∷ ys)
    there : {y : A} {ys : List A} → In x ys → In x (y ∷ ys)

  pub In-nil : {x : A} → ¬ In x []
  In-nil m = elim m [ ]

  pub In-cons : {x y : A} {ys : List A} → In x (y ∷ ys) → (x ≡ y) ⊎ (In x ys)
  In-cons (here e) = inl e
  In-cons (there m) = inr m

  pub In-append_left : {x : A} (xs ys : List A) → In x xs → In x (xs ++ ys)
  In-append_left [] ys h = elim h [ ]
  In-append_left (y ∷ xs) ys (here e) = here e
  In-append_left (y ∷ xs) ys (there h) = there (In-append_left xs ys h)

  pub In-append_right : {x : A} (xs ys : List A) → In x ys → In x (xs ++ ys)
  In-append_right [] ys h = h
  In-append_right (y ∷ xs) ys h = there (In-append_right xs ys h)

  pub In-append_cases : {x : A} (xs ys : List A) → In x (xs ++ ys) → (In x xs) ⊎ (In x ys)
  In-append_cases [] ys h = inr h
  In-append_cases (y ∷ xs) ys (here e) = inl (here e)
  In-append_cases (y ∷ xs) ys (there h) = elim (In-append_cases xs ys h) [
    | inl k ↦ inl (there k)
    | inr k ↦ inr k
  ]

In-if {ℓ} :
    {A : Type ℓ} {x : A} {ys : List A} (y : A) (b : Bool)
    → In x ys
    → In x (if b then y ∷ ys else ys)
In-if y true m = there m
In-if y false m = m

In-if_cases {ℓ} :
    {A : Type ℓ} {x : A} {ys : List A} (y : A) (b : Bool)
    → In x (if b then y ∷ ys else ys)
    → ((b ≡ true) × (x ≡ y)) ⊎ (In x ys)
In-if_cases y true (here e) = inl (refl, e)
In-if_cases y true (there m) = inr m
In-if_cases y false m = inr m

module _ {ℓ} {A : Type ℓ} (p : A → Bool) where
  pub any-false : {x : A} (xs : List A) → any p xs ≡ false → In x xs → p x ≡ false
  unfolding any
  any-false [] h m = elim m [ ]
  any-false (y ∷ ys) h (here e) = rw e (ground arith)
  any-false (y ∷ ys) h (there m) = any-false ys (ground arith) m

  pub any_of_none : (xs : List A) → ((x : A) → In x xs → p x ≡ false) → any p xs ≡ false
  unfolding any
  any_of_none [] h = refl
  any_of_none (y ∷ ys) h = rw (h y (here refl)) (any_of_none ys (λ x m. h x (there m)))

  pub all-In : {x : A} (xs : List A) → all p xs ≡ true → In x xs → p x ≡ true
  unfolding all
  all-In [] h m = elim m [ ]
  all-In (y ∷ ys) h (here e) = rw e (ground arith)
  all-In (y ∷ ys) h (there m) = all-In ys (ground arith) m

  pub In-select : {x : A} (xs : List A) → In x xs → p x ≡ true → In x (select p xs)
  unfolding select
  In-select [] m h = elim m [ ]
  In-select (y ∷ ys) (here e) h = rw (← e, h) (here refl)
  In-select (y ∷ ys) (there m) h = In-if y (p y) (In-select ys m h)

  -- What `select` keeps was there, and passes the test.
  pub select-In : {x : A} (xs : List A) → In x (select p xs) → In x xs × (p x ≡ true)
  unfolding select
  select-In [] m = elim m [ ]
  select-In (y ∷ ys) m = elim (In-if_cases y (p y) m) [
    | inl k ↦ (here k.1, rw k.1 k.0)
    | inr k ↦ let (i, e) = select-In ys k in (there i, e)
  ]

-- Every element satisfies a predicate; it computes to a tuple.
abbrev pub All {ℓ κ} : {A : Type ℓ} → (A → Type κ) → List A → Type κ
All P [] = Unit
All P (x ∷ xs) = P x × All P xs

pub All-map {ℓ κ μ} :
    {A : Type ℓ} {P : A → Type κ} {Q : A → Type μ} (xs : List A)
    → ((x : A) → P x → Q x)
    → All P xs
    → All Q xs
All-map [] f h = tt
All-map (x ∷ xs) f h = (f x h.0, All-map xs f h.1)

pub All-In {ℓ κ} : {A : Type ℓ} (P : A → Type κ) {x : A} (xs : List A) → All P xs → In x xs → P x
All-In P [] h m = elim m [ ]
All-In P (y ∷ ys) h (here e) = subst P (sym e) h.0
All-In P (y ∷ ys) h (there m) = All-In P ys h.1 m

pub any-All {ℓ} :
    {A : Type ℓ} (p : A → Bool) (xs : List A) → any p xs ≡ false → All (λ x. p x ≡ false) xs
unfolding any
any-All p [] h = tt
any-All p (x ∷ xs) h = (ground arith, any-All p xs (ground arith))

-- What `first` finds passes the test and stands in the list.
pub first-some {ℓ} :
    {A : Type ℓ} (p : A → Bool) (xs : List A) {x : A} → first p xs ≡ some x → (p x ≡ true) × In x xs
unfolding first
first-some p [] h = absurd (cc)
first-some p (y ∷ ys) {x} h = elim (Bool-cases (p y)) [
  | inl e ↦ let same : y ≡ x = ground (arith, h, e) in (rw (← same) e, here (sym same))
  | inr e ↦ let (t, m) = first-some p ys {x = x} (rw e at h) in (t, there m)
]
