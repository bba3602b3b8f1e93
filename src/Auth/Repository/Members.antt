-- ===== src/Auth/Repository/Members.antt =====
-- services/auth-service/internal/repository/repository.go: the members of a tenant.
use shearix_platform.Shared.{
  String, Bool, ◌&&◌, not, Option, none, some, List, [], ◌∷◌, any, first, str_eq, if◌then◌else◌,
}
use shearix_platform.Shared.Actions.{Action, ◌>>=◌, ◌>>◌, done, stop_if, query, write, must}
use shearix_platform.Platform.Ids.{Uuid}
use shearix_platform.Auth.Domain.{Member, valid_role}
use shearix_platform.Auth.Store.{
  IdentityRow, MembershipRow, Db, RepoError, not_found, failed, select_membership,
  update_membership, Env, or_empty, is_member, is_active_member, leaves_no_owner,
}
use shearix_platform.Auth.Repository.{sent, in_tenant_tx, identity_of}

-- The columns of a member.
unfoldable pub member : IdentityRow → MembershipRow → Member
member i m = record {
  identity_id = i.id;
  name = or_empty i.name;
  email = or_empty i.email;
  phone = or_empty i.phone;
  role = m.role;
  status = m.status;
  created_at = m.created_at;
}

unfoldable pub joined_member : List IdentityRow → MembershipRow → Option Member
unfolding identity_of member
joined_member ids m = elim (identity_of m.identity_id ids) [
  | none ↦ none
  | some i ↦ some (member i m)
]

unfoldable pub find_member : Uuid → Uuid → Db → Option Member
unfolding joined_member
find_member tenant identity db = elim (first (is_member tenant identity) db.memberships) [
  | none ↦ none
  | some m ↦ joined_member db.identities m
]

-- Member
unfoldable pub get_member : Env → Uuid → Uuid → Action RepoError Db Member
unfolding in_tenant_tx ◌>>=◌ ◌>>◌ sent query must find_member
get_member env tenant identity =
    in_tenant_tx env do
      sent env select_membership
      found ← query (find_member tenant identity)
      must not_found found

-- UPDATE public.tenant_memberships SET ... for the first row of the member.
unfoldable pub replace_membership : MembershipRow → List MembershipRow → List MembershipRow
unfolding is_member
replace_membership new [] = []
replace_membership new (m ∷ rest) =
    if is_member new.tenant_id new.identity_id m
    then new ∷ rest
    else m ∷ replace_membership new rest

abbrev pub change_membership : MembershipRow → Db → Db
change_membership m db = record db { memberships = replace_membership m db.memberships }

-- The update of a membership that was found, with the CHECK constraints and the trigger.
unfoldable pub update_member :
    Env → Uuid → Uuid → (MembershipRow → MembershipRow) → Action RepoError Db Member
unfolding ◌>>=◌ ◌>>◌ sent query must done stop_if write joined_member leaves_no_owner valid_role
    replace_membership
update_member env tenant identity f = do
  sent env update_membership
  found ← query (λ db. first (is_member tenant identity) db.memberships)
  old ← must not_found found
  shown ← query (λ db. joined_member db.identities (f old))
  answer ← must not_found shown
  rows ← query (λ db. db.memberships)
  stop_if (leaves_no_owner old (f old) rows) failed
  stop_if (not (valid_role (f old).role)) failed
  write (change_membership (f old))
  done answer

-- ChangeMemberRole
unfoldable pub change_member_role : Env → Uuid → Uuid → String → Action RepoError Db Member
unfolding in_tenant_tx update_member
change_member_role env tenant identity role =
    in_tenant_tx env (update_member env tenant identity (λ m. record m { role = role }))

-- SetMemberStatus; its caller gives "active" or "inactive", which the CHECK constraint allows.
unfoldable pub set_member_status : Env → Uuid → Uuid → String → Action RepoError Db Member
unfolding in_tenant_tx update_member
set_member_status env tenant identity status =
    in_tenant_tx env (update_member env tenant identity (λ m. record m { status = status }))

-- BarberEligible
unfoldable pub barber_eligible : Env → Uuid → Uuid → Action RepoError Db Bool
unfolding in_tenant_tx ◌>>◌ sent query is_active_member
barber_eligible env tenant identity = in_tenant_tx env do
  sent env select_membership
  query (λ db.
      any (λ (m : MembershipRow). is_active_member tenant identity m && str_eq m.role "BARBER")
        db.memberships)

-- HasActiveMembership
unfoldable pub has_active_membership : Env → Uuid → Uuid → Action RepoError Db Bool
unfolding in_tenant_tx ◌>>◌ sent query is_active_member
has_active_membership env tenant identity = in_tenant_tx env do
  sent env select_membership
  query (λ db. any (is_active_member tenant identity) db.memberships)
