-- ===== src/Catalog/Service.antt =====
-- services/catalog-service/internal/application/service.go, over a repository on a store `S`.
use shearix_platform.Shared.{
  ℕ, String, Bool, true, false, ◌&&◌, not, List, [], ◌∷◌, leb, length, all, codes, ◌==◌, str_eq,
  Result, ok, err, if◌then◌else◌, pos, ltb_ℤ,
}
use shearix_platform.Shared.Actions.{Action, ◌>>=◌, ◌>>◌, checked, stop_if, call}
use shearix_platform.Platform.Ids.{Uuid, is_nil}
use shearix_platform.Platform.Library.{Library}
use shearix_platform.Platform.AdminAuth.{can_read, can_write}
use shearix_platform.Platform.TenantContext.{Context}
use shearix_platform.Platform.SchedulingDeps.{DependencyError, missing, unreachable}
use shearix_platform.Catalog.Domain.{Offer, ServiceInput, PublicBarberServices}

-- repository.ErrNotFound, and any other error of the repository.
pub data RepoError : Type 0 where
  not_found failed : RepoError

pub data CatalogError : Type 0 where
  invalid unauthorized forbidden absent conflict unavailable : CatalogError
  other : RepoError → CatalogError

pub record Repository (S : Type 0) : Type 0 where
  pub services : Uuid → Bool → Action RepoError S (List Offer)
  pub public_barber_services : Uuid → Action RepoError S (List PublicBarberServices)
  pub service : Uuid → Uuid → Action RepoError S Offer
  pub save : Uuid → Uuid → ServiceInput → Action RepoError S Offer
  pub assign : Uuid → Uuid → Uuid → Action RepoError S (Unit {0})
  pub assignments : Uuid → Uuid → Action RepoError S (List Offer)
  pub unassign : Uuid → Uuid → Uuid → Action RepoError S (Unit {0})
  pub active_assigned_service : Uuid → Uuid → Uuid → Action RepoError S Offer

-- What the auth service and the barber service answer: the role of a session, and whether a barber
-- exists.
pub record Clients : Type 0 where
  pub authenticate : Context → String → Result DependencyError String
  pub ensure_exists : Context → Uuid → Result DependencyError (Unit {0})

-- mapRepo, for an error
unfoldable pub map_repo : RepoError → CatalogError
map_repo not_found = absent
map_repo failed = other failed

-- The error of Save and of Assign
unfoldable pub write_error : RepoError → CatalogError
write_error not_found = absent
write_error failed = conflict

-- The error of a principal who may not: a reader is told `unauthorized`.
unfoldable pub refusal : Bool → CatalogError
refusal write = if write then forbidden else unauthorized

unfoldable pub authorize_role :
    Bool → Result DependencyError String → Result CatalogError (Unit {0})
unfolding refusal can_read can_write
authorize_role write (err e) = err (refusal write)
authorize_role write (ok role) =
    if not (can_read role)
    then err (refusal write)
    else if write && not (can_write role)
    then err forbidden
    else ok tt

-- authorize
unfoldable pub authorize_admin : Clients → Context → String → Bool → Result CatalogError (Unit {0})
unfolding authorize_role
authorize_admin clients t cookie write =
    if not (str_eq t.app_type "admin")
    then err unauthorized
    else authorize_role write (clients.authenticate t cookie)

abbrev is_digit : ℕ → Bool
is_digit c = leb b'0' c && leb c b'9'

-- One or two digits to the end of the text.
unfoldable pub is_cents : List ℕ → Bool
is_cents (a ∷ []) = is_digit a
is_cents (a ∷ b ∷ []) = is_digit a && is_digit b
is_cents _ = false

-- The rest of an amount, after its first digit.
unfoldable pub is_amount_rest : List ℕ → Bool
unfolding is_cents
is_amount_rest [] = true
is_amount_rest (c ∷ rest) = if c == b'.' then is_cents rest else is_digit c && is_amount_rest rest

-- ^[0-9]+(\.[0-9]{1,2})?$
unfoldable pub is_amount : List ℕ → Bool
unfolding is_amount_rest
is_amount [] = false
is_amount (c ∷ rest) = is_digit c && is_amount_rest rest

-- ^[A-Z]{3}$
unfoldable pub is_currency : List ℕ → Bool
is_currency c = length c == 3 && all (λ x. leb b'A' x && leb x b'Z') c

-- valid
unfoldable pub valid_service : Library → ServiceInput → Bool
unfolding is_amount is_currency
valid_service lib input =
    not (str_eq (lib.trim_space input.name) "")
    && not (ltb_ℤ input.duration_minutes (pos 0))
    && not (ltb_ℤ input.buffer_before_minutes (pos 0))
    && not (ltb_ℤ input.buffer_after_minutes (pos 0))
    && is_amount (codes input.price)
    && is_currency (codes input.currency)

unfoldable pub barber_found : Result DependencyError (Unit {0}) → Result CatalogError (Unit {0})
barber_found (err missing) = err absent
barber_found (err unreachable) = err unavailable
barber_found (ok _) = ok tt

module _ {S : Type 0} (lib : Library) (repo : Repository S) (clients : Clients) (t : Context) where
  -- Public
  unfoldable pub public_services : Action CatalogError S (List Offer)
  unfolding ◌>>=◌ ◌>>◌ stop_if call
  public_services = do
    stop_if (not (str_eq t.app_type "booking")) unauthorized
    call other (repo.services t.tenant_id true)

  -- PublicBarberServices
  unfoldable pub public_barber_services : Action CatalogError S (List PublicBarberServices)
  unfolding ◌>>=◌ ◌>>◌ stop_if call
  public_barber_services = do
    stop_if (not (str_eq t.app_type "booking")) unauthorized
    call other (repo.public_barber_services t.tenant_id)

  -- Available
  unfoldable pub bookable_service : Uuid → Uuid → Action CatalogError S Offer
  unfolding ◌>>=◌ ◌>>◌ stop_if call map_repo
  bookable_service barber id = do
    stop_if (not (str_eq t.app_type "booking") && not (str_eq t.app_type "admin")) unauthorized
    call map_repo (repo.active_assigned_service t.tenant_id barber id)

  -- List
  unfoldable pub list_services : String → Action CatalogError S (List Offer)
  unfolding ◌>>=◌ ◌>>◌ checked call authorize_admin
  list_services cookie = do
    checked (authorize_admin clients t cookie false)
    call other (repo.services t.tenant_id false)

  -- Get
  unfoldable pub get_service : String → Uuid → Action CatalogError S Offer
  unfolding ◌>>=◌ ◌>>◌ checked call authorize_admin map_repo
  get_service cookie id = do
    checked (authorize_admin clients t cookie false)
    call map_repo (repo.service t.tenant_id id)

  -- Save
  unfoldable pub save_service : String → Uuid → ServiceInput → Action CatalogError S Offer
  unfolding ◌>>=◌ ◌>>◌ checked stop_if call authorize_admin valid_service write_error
  save_service cookie id input = do
    _ ← checked (authorize_admin clients t cookie true)
    let named = record input { name = lib.trim_space input.name }
    stop_if (not (valid_service lib named)) invalid
    call write_error (repo.save t.tenant_id id named)

  -- Assign
  unfoldable pub assign_service : String → Uuid → Uuid → Action CatalogError S (Unit {0})
  unfolding ◌>>=◌ ◌>>◌ checked stop_if call authorize_admin barber_found write_error
  assign_service cookie barber service = do
    checked (authorize_admin clients t cookie true)
    stop_if (is_nil service) invalid
    checked (barber_found (clients.ensure_exists t barber))
    call write_error (repo.assign t.tenant_id barber service)

  -- Assignments
  unfoldable pub list_assignments : String → Uuid → Action CatalogError S (List Offer)
  unfolding ◌>>=◌ ◌>>◌ checked call authorize_admin barber_found
  list_assignments cookie barber = do
    checked (authorize_admin clients t cookie false)
    checked (barber_found (clients.ensure_exists t barber))
    call other (repo.assignments t.tenant_id barber)

  -- Unassign
  unfoldable pub unassign_service : String → Uuid → Uuid → Action CatalogError S (Unit {0})
  unfolding ◌>>=◌ ◌>>◌ checked call authorize_admin barber_found map_repo
  unassign_service cookie barber service = do
    checked (authorize_admin clients t cookie true)
    checked (barber_found (clients.ensure_exists t barber))
    call map_repo (repo.unassign t.tenant_id barber service)
