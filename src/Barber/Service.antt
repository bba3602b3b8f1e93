-- ===== src/Barber/Service.antt =====
-- services/barber-service/internal/application/service.go, over a repository on a store `S`.
use shearix_platform.Shared.{
  String, Bool, true, false, ◌&&◌, not, Option, List, str_eq, Result, ok, err, or_error,
  if◌then◌else◌,
}
use shearix_platform.Shared.Actions.{Action, ◌>>=◌, ◌>>◌, done, checked, stop_if, call}
use shearix_platform.Platform.Ids.{Uuid, is_nil}
use shearix_platform.Platform.Library.{Library}
use shearix_platform.Platform.AdminAuth.{can_read, can_write}
use shearix_platform.Platform.TenantContext.{Context}
use shearix_platform.Platform.SchedulingDeps.{DependencyError}
use shearix_platform.Barber.Domain.{Branch, StaffBarber, BranchInput, BarberInput}

-- repository.ErrNotFound, repository.ErrConflict, and any other error of the repository.
pub data RepoError : Type 0 where
  not_found clash failed : RepoError

pub data BarberError : Type 0 where
  invalid unauthorized forbidden absent conflict unprocessable : BarberError
  other : RepoError → BarberError

pub record Repository (S : Type 0) : Type 0 where
  pub assigned : Uuid → Uuid → Uuid → Action RepoError S Bool
  pub branches : Uuid → Bool → Action RepoError S (List Branch)
  pub branch : Uuid → Uuid → Action RepoError S Branch
  pub save_branch : Uuid → Uuid → BranchInput → Action RepoError S Branch
  pub barbers : Uuid → Bool → Action RepoError S (List StaffBarber)
  pub barber : Uuid → Uuid → Action RepoError S StaffBarber
  pub save_barber : Uuid → Uuid → BarberInput → Action RepoError S StaffBarber
  pub link_identity : Uuid → Uuid → Uuid → Action RepoError S (Unit {0})
  pub unlink_identity : Uuid → Uuid → Action RepoError S (Unit {0})

-- What the auth service answers: the role of a session, and whether an identity is an active barber
-- of the tenant.
pub record MembershipClient : Type 0 where
  pub authenticate : Context → String → Result DependencyError String
  pub ensure_barber_membership : Context → Uuid → Result DependencyError (Unit {0})

-- repoError, for an error
unfoldable pub repo_error : RepoError → BarberError
repo_error not_found = absent
repo_error clash = conflict
repo_error failed = other failed

-- The error of SaveBranch and SaveBarber
unfoldable pub save_error : RepoError → BarberError
save_error not_found = absent
save_error clash = conflict
save_error failed = conflict

-- repoErrorOrNotFound, for an error
unfoldable pub or_absent : RepoError → BarberError
or_absent not_found = absent
or_absent clash = other clash
or_absent failed = other failed

unfoldable pub refusal : Bool → BarberError
refusal write = if write then forbidden else unauthorized

unfoldable pub authorize_member :
    Bool → Result DependencyError String → Result BarberError (Unit {0})
unfolding refusal can_read can_write
authorize_member write (err e) = err (refusal write)
authorize_member write (ok role) =
    if not (can_read role)
    then err (refusal write)
    else if write && not (can_write role)
    then err forbidden
    else ok tt

-- authorize
unfoldable pub authorize_staff :
    MembershipClient → Context → String → Bool → Result BarberError (Unit {0})
unfolding authorize_member
authorize_staff auth t cookie write =
    if not (str_eq t.app_type "admin")
    then err unauthorized
    else authorize_member write (auth.authenticate t cookie)

module _ {S : Type 0} (lib : Library) (repo : Repository S) (auth : MembershipClient)
    (t : Context) where
  -- PublicBranches
  unfoldable pub public_branches : Action BarberError S (List Branch)
  unfolding ◌>>=◌ ◌>>◌ stop_if call
  public_branches = do
    stop_if (not (str_eq t.app_type "booking")) unauthorized
    call other (repo.branches t.tenant_id true)

  -- PublicBarbers
  unfoldable pub public_barbers : Action BarberError S (List StaffBarber)
  unfolding ◌>>=◌ ◌>>◌ stop_if call
  public_barbers = do
    stop_if (not (str_eq t.app_type "booking")) unauthorized
    call other (repo.barbers t.tenant_id true)

  -- Branches
  unfoldable pub list_branches : String → Action BarberError S (List Branch)
  unfolding ◌>>=◌ ◌>>◌ checked call authorize_staff
  list_branches cookie = do
    checked (authorize_staff auth t cookie false)
    call other (repo.branches t.tenant_id false)

  -- Branch
  unfoldable pub get_branch : String → Uuid → Action BarberError S Branch
  unfolding ◌>>=◌ ◌>>◌ checked call authorize_staff repo_error
  get_branch cookie id = do
    checked (authorize_staff auth t cookie false)
    call repo_error (repo.branch t.tenant_id id)

  -- SaveBranch
  unfoldable pub save_branch_as : String → Uuid → BranchInput → Action BarberError S Branch
  unfolding ◌>>=◌ ◌>>◌ checked stop_if call authorize_staff save_error
  save_branch_as cookie id input = do
    checked (authorize_staff auth t cookie true)
    stop_if (str_eq (lib.trim_space input.name) "") invalid
    call save_error
        (repo.save_branch t.tenant_id id (record input { name = lib.trim_space input.name }))

  -- Barbers
  unfoldable pub list_barbers : String → Action BarberError S (List StaffBarber)
  unfolding ◌>>=◌ ◌>>◌ checked call authorize_staff
  list_barbers cookie = do
    checked (authorize_staff auth t cookie false)
    call other (repo.barbers t.tenant_id false)

  -- Barber
  unfoldable pub get_barber : String → Uuid → Action BarberError S StaffBarber
  unfolding ◌>>=◌ ◌>>◌ checked call authorize_staff repo_error
  get_barber cookie id = do
    checked (authorize_staff auth t cookie false)
    call repo_error (repo.barber t.tenant_id id)

  -- SaveBarber
  unfoldable pub save_barber_as : String → Uuid → BarberInput → Action BarberError S StaffBarber
  unfolding ◌>>=◌ ◌>>◌ checked stop_if call authorize_staff save_error
  save_barber_as cookie id input = do
    checked (authorize_staff auth t cookie true)
    stop_if (str_eq (lib.trim_space input.display_name) "") invalid
    call save_error (
        repo.save_barber t.tenant_id id
          (record input { display_name = lib.trim_space input.display_name }))

  -- BookingAccess
  unfoldable pub booking_access : Uuid → Uuid → Action BarberError S (Unit {0})
  unfolding ◌>>=◌ ◌>>◌ stop_if call or_absent
  booking_access branch_id barber_id = do
    stop_if (not (str_eq t.app_type "admin") && not (str_eq t.app_type "booking")) unauthorized
    branch ← call or_absent (repo.branch t.tenant_id branch_id)
    stop_if (not branch.active) absent
    barber ← call or_absent (repo.barber t.tenant_id barber_id)
    stop_if (not barber.active) absent
    assigned ← call other (repo.assigned t.tenant_id branch_id barber_id)
    stop_if (not assigned) absent

  -- SchedulingAccess
  unfoldable pub scheduling_access : Uuid → Action BarberError S (Option Uuid)
  unfolding ◌>>=◌ ◌>>◌ stop_if call done or_absent
  scheduling_access id = do
    stop_if (not (str_eq t.app_type "admin") && not (str_eq t.app_type "booking")) unauthorized
    barber ← call or_absent (repo.barber t.tenant_id id)
    stop_if (not barber.active) absent
    done barber.identity_id

  -- Exists
  unfoldable pub barber_exists : Uuid → Action BarberError S (Unit {0})
  unfolding ◌>>=◌ ◌>>◌ stop_if call done repo_error
  barber_exists id = do
    stop_if (not (str_eq t.app_type "admin")) unauthorized
    barber ← call repo_error (repo.barber t.tenant_id id)
    done tt

  -- LinkIdentity
  unfoldable pub link_identity_as : String → Uuid → Uuid → Action BarberError S (Unit {0})
  unfolding ◌>>=◌ ◌>>◌ checked stop_if call authorize_staff repo_error
  link_identity_as cookie barber_id identity_id = do
    stop_if (is_nil identity_id) invalid
    checked (authorize_staff auth t cookie true)
    checked (or_error unprocessable (auth.ensure_barber_membership t identity_id))
    call repo_error (repo.link_identity t.tenant_id barber_id identity_id)

  -- UnlinkIdentity
  unfoldable pub unlink_identity_as : String → Uuid → Action BarberError S (Unit {0})
  unfolding ◌>>=◌ ◌>>◌ checked call authorize_staff repo_error
  unlink_identity_as cookie barber_id = do
    checked (authorize_staff auth t cookie true)
    call repo_error (repo.unlink_identity t.tenant_id barber_id)
