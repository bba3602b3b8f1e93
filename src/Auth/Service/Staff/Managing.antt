-- ===== src/Auth/Service/Staff/Managing.antt =====
-- services/auth-service/internal/service/service.go: the members of a staff and their roles.
use shearix_platform.Shared.{String, Bool, ◌||◌, not, List, str_eq, ◌==◌, if◌then◌else◌}
use shearix_platform.Shared.Actions.{Action, ◌>>=◌, ◌>>◌, stop_if}
use shearix_platform.Platform.Ids.{Uuid}
use shearix_platform.Auth.Domain.{StaffPrincipal, Member, OwnerState}
use shearix_platform.Auth.Store.{Env}
use shearix_platform.Auth.Repository.Members.{
  get_member, change_member_role, set_member_status, barber_eligible,
}
use shearix_platform.Auth.Repository.Sessions.Lists.{list_members, list_owners}
use shearix_platform.Auth.Service.{AuthError, forbidden, World, stored}
use shearix_platform.Auth.Service.Staff.{staff_role, is_owner_of}

-- Members, Owners, Member, BarberEligible
unfoldable pub members :
    Env → (Member → Member → Bool) → Uuid → Action AuthError World (List Member)
unfolding stored
members env by_name tenant = stored (list_members env by_name tenant)

unfoldable pub owners :
    Env → (OwnerState → OwnerState → Bool) → Uuid → Action AuthError World (List OwnerState)
unfolding stored
owners env by_email tenant = stored (list_owners env by_email tenant)

unfoldable pub member_of : Env → Uuid → Uuid → Action AuthError World Member
unfolding stored
member_of env tenant identity = stored (get_member env tenant identity)

unfoldable pub may_be_barber : Env → Uuid → Uuid → Action AuthError World Bool
unfolding stored
may_be_barber env tenant identity = stored (barber_eligible env tenant identity)

-- ChangeMemberRole
unfoldable pub change_role :
    Env → Uuid → StaffPrincipal → Uuid → String → Action AuthError World Member
unfolding ◌>>=◌ ◌>>◌ stop_if stored is_owner_of staff_role
change_role env tenant actor target role = do
  stop_if (not (is_owner_of tenant actor) || actor.identity_id == target || not (staff_role role))
      forbidden
  m ← stored (get_member env tenant target)
  stop_if (str_eq m.role "OWNER") forbidden
  stored (change_member_role env tenant target role)

abbrev pub status_text : Bool → String
status_text active = if active then "active" else "inactive"

-- SetMemberStatus
unfoldable pub set_status :
    Env → Uuid → StaffPrincipal → Uuid → Bool → Action AuthError World Member
unfolding ◌>>=◌ ◌>>◌ stop_if stored is_owner_of
set_status env tenant actor target active = do
  stop_if (not (is_owner_of tenant actor) || actor.identity_id == target) forbidden
  m ← stored (get_member env tenant target)
  stop_if (str_eq m.role "OWNER") forbidden
  stored (set_member_status env tenant target (status_text active))
