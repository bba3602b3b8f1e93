-- ===== src/Auth/Repository/Roles.antt =====
-- services/auth-service/internal/repository/repository.go: changing a member who is no owner.
use shearix_platform.Shared.{
  String, false, ◌≡◌, refl, sym, ◌∙◌, subst, some, List, [], ◌∷◌, first, select, str_eq, arith,
  Option-cases, inl, inr,
}
use shearix_platform.Shared.Actions.{◌>>=◌, ◌>>◌, Gives, go_on, done, stop_if, query, write, must}
use shearix_platform.Platform.Ids.{Uuid}
use shearix_platform.Platform.Transactions.{transaction, atomic, rolled_back}
use shearix_platform.Platform.Transactions.Keeping.{transaction-Leaves}
use shearix_platform.Auth.Domain.{Member}
use shearix_platform.Auth.Store.{MembershipRow, Db, failed, begin_tx, commit_tx, Env, is_member}
use shearix_platform.Auth.Repository.{sent, in_tenant_tx}
use shearix_platform.Auth.Repository.Members.{
  joined_member, get_member, find_member, member, replace_membership, update_member,
  change_member_role, set_member_status,
}
use shearix_platform.Auth.Repository.Owners.{is_owner, owner_rows}

-- A row that is no owner's is replaced by one that is none.
replace_membership-owner_rows :
    (new old : MembershipRow) (rows : List MembershipRow)
    → first (is_member new.tenant_id new.identity_id) rows ≡ some old
    → is_owner old ≡ false
    → is_owner new ≡ false
    → select is_owner (replace_membership new rows) ≡ select is_owner rows
unfolding replace_membership first select
replace_membership-owner_rows new old [] f o n = refl
replace_membership-owner_rows new old (m ∷ rest) f o n =
    ground (arith, replace_membership-owner_rows new old rest)

-- The row that was found has the identifiers it was sought by.
found_member :
    (tenant identity : Uuid) (rows : List MembershipRow) (m : MembershipRow)
    → first (is_member tenant identity) rows ≡ some m
    → (m.tenant_id ≡ tenant) × (m.identity_id ≡ identity)
unfolding first is_member
found_member tenant identity [] m h = absurd (cc)
found_member tenant identity (r ∷ rest) m h = ground (arith, found_member tenant identity rest m)

-- The member that is sought and what it becomes: neither is an owner, and both are one member.
pub record Demotes (tenant identity : Uuid) (f : MembershipRow → MembershipRow) (m : MembershipRow)
    : Type 0 where
  pub before_it : is_owner m ≡ false
  pub after_it : is_owner (f m) ≡ false
  pub same_tenant : (f m).tenant_id ≡ m.tenant_id
  pub same_identity : (f m).identity_id ≡ m.identity_id

changed_member-owner_rows :
    (tenant identity : Uuid) (f : MembershipRow → MembershipRow) (m : MembershipRow)
    (rows : List MembershipRow)
    → first (is_member tenant identity) rows ≡ some m
    → Demotes tenant identity f m
    → select is_owner (replace_membership (f m) rows) ≡ select is_owner rows
changed_member-owner_rows tenant identity f m rows e d =
    let (t, i) = found_member tenant identity rows m e in
    replace_membership-owner_rows (f m) m rows
      (subst (λ x. first (is_member x (f m).identity_id) rows ≡ some m) (sym (d.same_tenant ∙ t))
        (subst (λ x. first (is_member tenant x) rows ≡ some m) (sym (d.same_identity ∙ i)) e))
      d.before_it d.after_it

update_member-owner_rows :
    (env : Env) (tenant identity : Uuid) (f : MembershipRow → MembershipRow) (db : Db)
    → ((m : MembershipRow)
        → first (is_member tenant identity) db.memberships ≡ some m
        → Demotes tenant identity f m)
    → owner_rows (update_member env tenant identity f db).1 ≡ owner_rows db
unfolding update_member sent ◌>>=◌ ◌>>◌ go_on stop_if query must write done owner_rows
update_member-owner_rows env tenant identity f db h =
    elim (Option-cases (first (is_member tenant identity) db.memberships)) [
      | inl e ↦ ground (arith, e)
      | inr (m, e) ↦
          ground (arith, changed_member-owner_rows tenant identity f m db.memberships e (h m e))
    ]

pub change_member_role-owner_rows :
    (env : Env) (tenant identity : Uuid) (role : String) (db : Db)
    → ((m : MembershipRow)
        → first (is_member tenant identity) db.memberships ≡ some m
        → is_owner m ≡ false)
    → str_eq role "OWNER" ≡ false
    → owner_rows (change_member_role env tenant identity role db).1 ≡ owner_rows db
unfolding change_member_role in_tenant_tx
change_member_role-owner_rows env tenant identity role db h r =
    transaction-Leaves (λ s. owner_rows s ≡ owner_rows db) (env.fails begin_tx)
      (env.fails commit_tx) failed _ db refl
      (update_member-owner_rows env tenant identity _ db (λ m e. record {
        before_it = h m e;
        after_it = r;
        same_tenant = refl;
        same_identity = refl;
      }))

pub set_member_status-owner_rows :
    (env : Env) (tenant identity : Uuid) (status : String) (db : Db)
    → ((m : MembershipRow)
        → first (is_member tenant identity) db.memberships ≡ some m
        → is_owner m ≡ false)
    → owner_rows (set_member_status env tenant identity status db).1 ≡ owner_rows db
unfolding set_member_status in_tenant_tx
set_member_status-owner_rows env tenant identity status db h =
    transaction-Leaves (λ s. owner_rows s ≡ owner_rows db) (env.fails begin_tx)
      (env.fails commit_tx) failed _ db refl
      (update_member-owner_rows env tenant identity _ db (λ m e. record {
        before_it = h m e;
        after_it = h m e;
        same_tenant = refl;
        same_identity = refl;
      }))

-- The role that Member answers is the found row's.
pub get_member-role :
    (env : Env) (tenant identity : Uuid) (db : Db) (a : Member)
    → Gives (get_member env tenant identity) db a
    → (m : MembershipRow) → first (is_member tenant identity) db.memberships ≡ some m
    → m.role ≡ a.role
unfolding get_member find_member joined_member member in_tenant_tx transaction atomic rolled_back
    sent ◌>>=◌ ◌>>◌ go_on stop_if query must done
get_member-role env tenant identity db a h m e = ground arith

-- Member only reads.
pub get_member_same :
    (env : Env) (tenant identity : Uuid) (db : Db) → (get_member env tenant identity db).1 ≡ db
unfolding get_member in_tenant_tx transaction atomic rolled_back sent ◌>>=◌ ◌>>◌ go_on stop_if query
    must done
get_member_same env tenant identity db = ground arith
