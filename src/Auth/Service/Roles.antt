-- ===== src/Auth/Service/Roles.antt =====
-- services/auth-service/internal/service/service.go: the owners under requests on the staff.
use shearix_platform.Shared.{
  String, Bool, true, false, ◌||◌, not, ◌≡◌, sym, subst, ◌∙◌, some, List, first, str_eq, ◌==◌,
  Result, ok, err, arith, Bool-cases, inl, inr,
}
use shearix_platform.Shared.Actions.{Action, ◌>>=◌, ◌>>◌, Gives, stop_if, call, call-Gives}
use shearix_platform.Platform.Ids.{Uuid}
use shearix_platform.Platform.Library.{Library}
use shearix_platform.Platform.Email.{Delivery}
use shearix_platform.Platform.Transactions.{Keeps}
use shearix_platform.Platform.Transactions.Keeping.{
  keeps_rules, bind-Leaves, guard-Leaves, Keeps-guard,
}
use shearix_platform.Auth.Domain.{StaffPrincipal, RegisterInput, Member}
use shearix_platform.Auth.Store.{
  Db, Env, RepoError, MembershipRow, not_found, no_rows, failed, is_member,
}
use shearix_platform.Auth.Repository.{Credential, RegistrationResult, register}
use shearix_platform.Auth.Repository.Members.{get_member, change_member_role, set_member_status}
use shearix_platform.Auth.Repository.Owners.{
  is_owner, owner_rows, claim_initial_delivery-owner_rows, mark_initial_delivery-owner_rows,
  activate_retried_credential-owner_rows, credential_by_email-owner_rows, register-owner_rows,
  get_member-owner_rows,
}
use shearix_platform.Auth.Repository.Roles.{
  change_member_role-owner_rows, set_member_status-owner_rows, get_member-role, get_member_same,
}
use shearix_platform.Auth.Service.{World, Setting, on_db, stored, repository, forbidden}
use shearix_platform.Auth.Service.Staff.{
  staff_role, validate_registration, mark_failed, settle, redeliver, finish_existing,
  register_existing, deliver_first, finish_new, register_new, register_found, register_by_email,
  register_staff, is_owner_of,
}
use shearix_platform.Auth.Service.Staff.Managing.{change_role, set_status, status_text}
use shearix_platform.Auth.Service.Owners.{ToldOwners, stored-Keeps, new_password-Keeps, send-Keeps}
use text.Mathlib.TextEquality.{eq_iff}

staff-owner : (role : String) → staff_role role ≡ true → str_eq role "OWNER" ≡ false
unfolding staff_role
staff-owner role h = elim (Bool-cases (str_eq role "OWNER")) [
  | inl e ↦
      let owner : staff_role "OWNER" ≡ true =
        subst (λ r. staff_role r ≡ true) ((eq_iff role "OWNER").0 e) h in
      cc
  | inr e ↦ e
]

module _ (rows : List MembershipRow) where
  settle-Keeps :
      (env : Env) (identity claim : Uuid) (finish : Action RepoError Db (Unit {0}))
      (r : RegistrationResult) (b : Bool)
      → ((db : Db) → owner_rows (finish db).1 ≡ owner_rows db)
      → Keeps (ToldOwners rows) (settle env identity claim finish r b)
  unfolding settle mark_failed on_db
  settle-Keeps env identity claim finish r true kept =
      search (keeps_rules, stored-Keeps rows finish kept)
  settle-Keeps env identity claim finish r false kept = record {
    at = λ w h. mark_initial_delivery-owner_rows env identity claim _ _ w.db ∙ h;
  }

  redeliver-Keeps :
      (env : Env) (set : Setting) (d : Delivery) (email : String) (r : RegistrationResult)
      → Keeps (ToldOwners rows) (redeliver env set d email r)
  unfolding redeliver
  redeliver-Keeps env set d email r =
      search
        (
          keeps_rules, stored-Keeps, claim_initial_delivery-owner_rows, new_password-Keeps,
          send-Keeps, settle-Keeps, activate_retried_credential-owner_rows,
        )
        depth 20

  finish_existing-Keeps :
      (env : Env) (set : Setting) (d : Delivery) (email : String) (r : RegistrationResult)
      (b : Bool)
      → Keeps (ToldOwners rows) (finish_existing env set d email r b)
  unfolding finish_existing
  finish_existing-Keeps env set d email r true = search keeps_rules
  finish_existing-Keeps env set d email r false = redeliver-Keeps env set d email r

  deliver_first-Keeps :
      (env : Env) (set : Setting) (d : Delivery) (email password : String) (r : RegistrationResult)
      → Keeps (ToldOwners rows) (deliver_first env set d email password r)
  unfolding deliver_first
  deliver_first-Keeps env set d email password r =
      search
        (
          keeps_rules, stored-Keeps, claim_initial_delivery-owner_rows, send-Keeps, settle-Keeps,
          mark_initial_delivery-owner_rows,
        )
        depth 20

  finish_new-Keeps :
      (env : Env) (set : Setting) (d : Delivery) (email password : String) (r : RegistrationResult)
      (b : Bool)
      → Keeps (ToldOwners rows) (finish_new env set d email password r b)
  unfolding finish_new
  finish_new-Keeps env set d email password r false = search keeps_rules
  finish_new-Keeps env set d email password r true = deliver_first-Keeps env set d email password r

  module _ (env : Env) (set : Setting) (d : Delivery) (tenant : Uuid) (name email : String)
      (input : RegisterInput) (staff : str_eq input.role "OWNER" ≡ false) where
    registered :
        (hash : String)
        → Keeps
            (ToldOwners rows)
            (stored (register env tenant name email input.phone input.role hash))
    registered hash =
        stored-Keeps rows _
          (λ db. register-owner_rows env tenant name email input.phone input.role hash db staff)

    register_found-Keeps :
        (r : Result RepoError Credential)
        → Keeps (ToldOwners rows) (register_found env set d tenant name email input r)
    unfolding register_found register_existing register_new
    register_found-Keeps (ok c) = search (keeps_rules, registered, finish_existing-Keeps) depth 20
    register_found-Keeps (err not_found) =
        search (keeps_rules, new_password-Keeps, registered, finish_new-Keeps) depth 20
    register_found-Keeps (err no_rows) = search keeps_rules
    register_found-Keeps (err failed) = search keeps_rules

  validated :
      (lib : Library) (input : RegisterInput) (names : String × String)
      → validate_registration lib input ≡ some names
      → str_eq input.role "OWNER" ≡ false
  unfolding validate_registration
  validated lib input names h = ground (arith, staff-owner input.role)

  register_by_email-Keeps :
      (env : Env) (set : Setting) (d : Delivery) (tenant : Uuid) (input : RegisterInput)
      (names : String × String)
      → str_eq input.role "OWNER" ≡ false
      → Keeps (ToldOwners rows) (register_by_email env set d tenant input names)
  unfolding register_by_email on_db
  register_by_email-Keeps env set d tenant input (name, email) staff = record {
    at = λ w h.
        (register_found-Keeps env set d tenant name email input staff _).at _
          (credential_by_email-owner_rows env email w.db ∙ h);
  }

  pub register_staff-Keeps :
      (env : Env) (set : Setting) (tenant : Uuid) (actor : StaffPrincipal) (input : RegisterInput)
      → Keeps (ToldOwners rows) (register_staff env set tenant actor input)
  unfolding register_staff
  register_staff-Keeps env set tenant actor input =
      search (keeps_rules, register_by_email-Keeps, validated) depth 20

  -- A request on a member that is refused for an owner.
  unless_owner :
      (env : Env) (tenant target : Uuid) (op : Action RepoError Db Member)
      → ((db : Db)
          → ((m : MembershipRow)
              → first (is_member tenant target) db.memberships ≡ some m
              → is_owner m ≡ false)
          → owner_rows (op db).1 ≡ owner_rows db)
      → Keeps (ToldOwners rows) (do
        m ← stored (get_member env tenant target)
        stop_if (str_eq m.role "OWNER") forbidden
        stored op)
  unfolding stored call on_db
  unless_owner env tenant target op kept = record {
    at = λ w h.
        let read = stored (get_member env tenant target) in
        let told =
          (stored-Keeps rows (get_member env tenant target)
              (get_member-owner_rows env tenant target)).at
            w h in
        bind-Leaves (ToldOwners rows) read _ w told (λ m g.
          guard-Leaves (ToldOwners rows) (str_eq m.role "OWNER") forbidden (stored op) (read w).1
            told
            (λ e.
              kept (read w).1.db (λ old o.
                subst (λ role. str_eq role "OWNER" ≡ false) (sym (read_role w m old g o)) e)
              ∙ told));
  }
    where
      read_role :
          (w : World) (m : Member) (old : MembershipRow)
          → Gives (stored (get_member env tenant target)) w m
          → first (is_member tenant target) (get_member env tenant target w.db).1.memberships
            ≡ some old
          → old.role ≡ m.role
      read_role w m old g o =
          get_member-role env tenant target w.db m
            (call-Gives repository (on_db (get_member env tenant target)) w m g) old
            (subst (λ db. first (is_member tenant target) db.memberships ≡ some old)
              (get_member_same env tenant target w.db) o)

  pub change_role-Keeps :
      (env : Env) (tenant : Uuid) (actor : StaffPrincipal) (target : Uuid) (role : String)
      → Keeps (ToldOwners rows) (change_role env tenant actor target role)
  unfolding change_role
  change_role-Keeps env tenant actor target role =
      Keeps-guard _
        (not (is_owner_of tenant actor) || actor.identity_id == target || not (staff_role role))
        forbidden _
        (λ e. unless_owner env tenant target (change_member_role env tenant target role) (λ db h.
          change_member_role-owner_rows env tenant target role db h
            (staff-owner role (ground (arith, e)))))

  pub set_status-Keeps :
      (env : Env) (tenant : Uuid) (actor : StaffPrincipal) (target : Uuid) (active : Bool)
      → Keeps (ToldOwners rows) (set_status env tenant actor target active)
  unfolding set_status
  set_status-Keeps env tenant actor target active =
      Keeps-guard _ (not (is_owner_of tenant actor) || actor.identity_id == target) forbidden _
        (λ e.
          unless_owner env tenant target (set_member_status env tenant target (status_text active))
            (λ db h. set_member_status-owner_rows env tenant target _ db h))
