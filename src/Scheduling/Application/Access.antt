-- ===== src/Scheduling/Application/Access.antt =====
-- Who may see and who may change a schedule.
use shearix_platform.Shared.{
  String, Bool, true, false, not, ◌||◌, ◌==◌, ◌≡◌, refl, ◌↔◌, Option, none, some, Result, ok, err,
  refuse_if, ==_iff, str_eq, arith, if◌then◌else◌,
}
use shearix_platform.Platform.Ids.{Uuid}
use shearix_platform.Platform.TenantContext.{Context}
use shearix_platform.Platform.SchedulingDeps.{Barber, DependencyError}
use shearix_platform.Scheduling.Application.{
  AppError, forbidden, Principal, Dependencies, is_self, authorize,
}
use text.Mathlib.TextEquality.{eq_iff}

-- The staff that may see the schedule of the barber, or change it if `write` is true.
pub data IsAuthorized (deps : Dependencies) (t : Context) (p : Principal) (barber : Uuid)
    : Bool → Type 0 where
  by_owner : {write : Bool} → p.role ≡ "OWNER" → IsAuthorized deps t p barber write
  by_manager : {write : Bool} → p.role ≡ "MANAGER" → IsAuthorized deps t p barber write
  by_receptionist : p.role ≡ "RECEPTIONIST" → IsAuthorized deps t p barber false
  by_barber :
      {write : Bool} (b : Barber)
      → p.role ≡ "BARBER"
      → deps.barber t barber ≡ ok b
      → b.identity_id ≡ some p.identity_id
      → IsAuthorized deps t p barber write

self-ok :
    (p : Principal) (r : Result DependencyError Barber)
    → is_self p r ≡ true
    → (b : Barber) × (r ≡ ok b) × (b.identity_id ≡ some p.identity_id)
unfolding is_self
self-ok p (err e) h = absurd (cc)
self-ok p (ok b) h = (b, refl, own b.identity_id h)
  where
    own :
        (o : Option Uuid)
        → (elim o [ none ↦ false | some i ↦ i == p.identity_id ]) ≡ true
        → o ≡ some p.identity_id
    own none e = absurd (cc)
    own (some i) e = rw ((==_iff i p.identity_id).0 e) refl

text_is : (s t : String) → str_eq s t ≡ true → s ≡ t
text_is s t h = (eq_iff s t).0 h

not_refused : (t : Bool) (e : AppError) {u : Unit {0}} → refuse_if t e ≡ ok u → t ≡ false
not_refused true e h = absurd (cc)
not_refused false e h = refl

module _ (deps : Dependencies) (t : Context) (p : Principal) (barber : Uuid) where
  by_role :
      (o m r b write : Bool) {u : Unit {0}}
      → str_eq p.role "OWNER" ≡ o
      → str_eq p.role "MANAGER" ≡ m
      → str_eq p.role "RECEPTIONIST" ≡ r
      → str_eq p.role "BARBER" ≡ b
      → (if o || m
          then ok tt
          else if r
          then refuse_if write forbidden
          else if b
          then refuse_if (not (is_self p (deps.barber t barber))) forbidden
          else err forbidden)
        ≡ ok u
      → IsAuthorized deps t p barber write
  by_role true m r b write eo em er eb h = by_owner (text_is p.role "OWNER" eo)
  by_role false true r b write eo em er eb h = by_manager (text_is p.role "MANAGER" em)
  by_role false false true b true eo em er eb h = absurd (cc)
  by_role false false true b false eo em er eb h =
      by_receptionist (text_is p.role "RECEPTIONIST" er)
  by_role false false false false write eo em er eb h = absurd (cc)
  by_role false false false true write eo em er eb h =
      let (x, found, same) =
        self-ok p (deps.barber t barber)
          (ground (arith, not_refused (not (is_self p (deps.barber t barber))) forbidden h)) in
      by_barber x (text_is p.role "BARBER" eb) found same

  pub authorize-IsAuthorized :
      (write : Bool) {u : Unit {0}}
      → authorize deps t p barber write ≡ ok u
      → IsAuthorized deps t p barber write
  unfolding authorize
  authorize-IsAuthorized write h =
      by_role (str_eq p.role "OWNER") (str_eq p.role "MANAGER") (str_eq p.role "RECEPTIONIST")
        (str_eq p.role "BARBER") write refl refl refl refl h

  IsAuthorized-authorize :
      (write : Bool) → IsAuthorized deps t p barber write → authorize deps t p barber write ≡ ok tt
  unfolding authorize is_self
  IsAuthorized-authorize write (by_owner e) = rw e refl
  IsAuthorized-authorize write (by_manager e) = rw e refl
  IsAuthorized-authorize write (by_receptionist e) = rw e refl
  IsAuthorized-authorize write (by_barber b e found same) =
      rw (e, found, same, (==_iff p.identity_id p.identity_id).1 refl) refl

-- The guard of every operation on a schedule passes exactly for an owner, a manager, a receptionist
-- who only reads, and the barber whose schedule it is.
pub authorize_iff :
    (deps : Dependencies) (t : Context) (p : Principal) (barber : Uuid) (write : Bool)
    → (authorize deps t p barber write ≡ ok tt) ↔ IsAuthorized deps t p barber write
authorize_iff deps t p barber write =
    (authorize-IsAuthorized deps t p barber write, IsAuthorized-authorize deps t p barber write)
