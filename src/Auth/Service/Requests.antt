-- ===== src/Auth/Service/Requests.antt =====
-- services/auth-service/internal/service/service.go: the requests that the service answers, one after
-- another, each with its own surroundings.
use shearix_platform.Shared.{String, Bool, ◌≡◌, refl, ◌∙◌, List, [], ◌∷◌}
use shearix_platform.Platform.Ids.{Uuid}
use shearix_platform.Auth.Domain.{
  StaffPrincipal, LoginInput, RegisterInput, ChangePasswordInput, Member, OwnerState,
}
use shearix_platform.Auth.Store.{Env}
use shearix_platform.Auth.Repository.Members.{get_member, barber_eligible}
use shearix_platform.Auth.Repository.Sessions.Lists.{list_members, list_owners}
use shearix_platform.Auth.Repository.Owners.{
  owner_rows, get_member-owner_rows, list_members-owner_rows, list_owners-owner_rows,
  barber_eligible-owner_rows,
}
use shearix_platform.Auth.Service.{World, Setting, login, current, logout}
use shearix_platform.Auth.Service.Renewal.{update_password, forgot_password}
use shearix_platform.Auth.Service.Staff.{register_staff}
use shearix_platform.Auth.Service.Staff.Managing.{
  members, owners, member_of, may_be_barber, change_role, set_status,
}
use shearix_platform.Auth.Service.Owners.{
  stored-Keeps, login-Keeps, current-Keeps, logout-Keeps, update_password-Keeps,
  forgot_password-Keeps,
}
use shearix_platform.Auth.Service.Roles.{register_staff-Keeps, change_role-Keeps, set_status-Keeps}

-- The service's methods with their arguments.
pub data Request : Type 0 where
  to_login : LoginInput → Request
  to_register : StaffPrincipal → RegisterInput → Request
  to_list : (Member → Member → Bool) → Request
  to_list_owners : (OwnerState → OwnerState → Bool) → Request
  to_show to_ask_barber : Uuid → Request
  to_change_role : StaffPrincipal → Uuid → String → Request
  to_set_status : StaffPrincipal → Uuid → Bool → Request
  to_change_password : StaffPrincipal → ChangePasswordInput → Request
  to_reset to_identify to_logout : String → Request

-- A request for a tenant, and what surrounds it.
pub record Call : Type 0 where
  pub env : Env
  pub set : Setting
  pub tenant : Uuid
  pub request : Request

-- The tables and messages after a request, whatever it answers.
unfoldable pub serve : Env → Setting → Uuid → Request → World → World
unfolding login register_staff members owners member_of may_be_barber change_role set_status
    update_password forgot_password current logout
serve env set tenant (to_login input) w = (login env set tenant input w).1
serve env set tenant (to_register actor input) w = (register_staff env set tenant actor input w).1
serve env set tenant (to_list by_name) w = (members env by_name tenant w).1
serve env set tenant (to_list_owners by_email) w = (owners env by_email tenant w).1
serve env set tenant (to_show identity) w = (member_of env tenant identity w).1
serve env set tenant (to_ask_barber identity) w = (may_be_barber env tenant identity w).1
serve env set tenant (to_change_role actor target role) w =
    (change_role env tenant actor target role w).1
serve env set tenant (to_set_status actor target active) w =
    (set_status env tenant actor target active w).1
serve env set tenant (to_change_password p input) w = (update_password env set tenant p input w).1
serve env set tenant (to_reset address) w = (forgot_password env set tenant address w).1
serve env set tenant (to_identify token) w = (current env set tenant token w).1
serve env set tenant (to_logout token) w = (logout env set tenant token w).1

unfoldable pub serve_all : List Call → World → World
unfolding serve
serve_all [] w = w
serve_all (c ∷ rest) w = serve_all rest (serve c.env c.set c.tenant c.request w)

serve-owner_rows :
    (env : Env) (set : Setting) (tenant : Uuid) (r : Request) (w : World)
    → owner_rows (serve env set tenant r w).db ≡ owner_rows w.db
unfolding serve members owners member_of may_be_barber
serve-owner_rows env set tenant (to_login input) w = (login-Keeps _ env set tenant input).at w refl
serve-owner_rows env set tenant (to_register actor input) w =
    (register_staff-Keeps _ env set tenant actor input).at w refl
serve-owner_rows env set tenant (to_list by_name) w =
    (stored-Keeps (owner_rows w.db) (list_members env by_name tenant)
        (list_members-owner_rows env by_name tenant)).at
      w refl
serve-owner_rows env set tenant (to_list_owners by_email) w =
    (stored-Keeps (owner_rows w.db) (list_owners env by_email tenant)
        (list_owners-owner_rows env by_email tenant)).at
      w refl
serve-owner_rows env set tenant (to_show identity) w =
    (stored-Keeps (owner_rows w.db) (get_member env tenant identity)
        (get_member-owner_rows env tenant identity)).at
      w refl
serve-owner_rows env set tenant (to_ask_barber identity) w =
    (stored-Keeps (owner_rows w.db) (barber_eligible env tenant identity)
        (barber_eligible-owner_rows env tenant identity)).at
      w refl
serve-owner_rows env set tenant (to_change_role actor target role) w =
    (change_role-Keeps _ env tenant actor target role).at w refl
serve-owner_rows env set tenant (to_set_status actor target active) w =
    (set_status-Keeps _ env tenant actor target active).at w refl
serve-owner_rows env set tenant (to_change_password p input) w =
    (update_password-Keeps _ env set tenant p input).at w refl
serve-owner_rows env set tenant (to_reset address) w =
    (forgot_password-Keeps _ env set tenant address).at w refl
serve-owner_rows env set tenant (to_identify token) w =
    (current-Keeps _ env set tenant token).at w refl
serve-owner_rows env set tenant (to_logout token) w =
    (logout-Keeps _ env set tenant token).at w refl

-- No sequence of requests, whatever their answers, adds an owner's membership, removes one or
-- changes one: a new owner is made, and an owner's role or status is changed, only elsewhere.
pub serve_all-owner_rows :
    (calls : List Call) (w : World) → owner_rows (serve_all calls w).db ≡ owner_rows w.db
unfolding serve_all
serve_all-owner_rows [] w = refl
serve_all-owner_rows (c ∷ rest) w =
    serve_all-owner_rows rest _ ∙ serve-owner_rows c.env c.set c.tenant c.request w
