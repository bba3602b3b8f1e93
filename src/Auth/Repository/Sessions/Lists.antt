-- ===== src/Auth/Repository/Sessions/Lists.antt =====
-- services/auth-service/internal/repository/repository.go: Members and Owners.
use shearix_platform.Shared.{
  Bool, true, false, ◌&&◌, Option, none, some, List, [], ◌∷◌, any, ◌==◌, str_eq, if◌then◌else◌,
}
use shearix_platform.Shared.Actions.{Action, ◌>>=◌, ◌>>◌, stop_if, query}
use shearix_platform.Platform.Ids.{Uuid}
use shearix_platform.Auth.Domain.{Member, OwnerState}
use shearix_platform.Auth.Store.{
  IdentityRow, CredentialRow, MembershipRow, Db, RepoError, failed, select_membership, Env,
  or_empty,
}
use shearix_platform.Auth.Repository.{sent, in_tenant_tx, credential_of, identity_of}
use shearix_platform.Auth.Repository.Members.{joined_member}

-- ORDER BY: the first of a list that its order puts after no other is put at its place.
unfoldable pub insert_ordered : {A : Type 0} → (A → A → Bool) → A → List A → List A
insert_ordered le a [] = a ∷ []
insert_ordered le a (b ∷ rest) = if le a b then a ∷ b ∷ rest else b ∷ insert_ordered le a rest

unfoldable pub ordered : {A : Type 0} → (A → A → Bool) → List A → List A
unfolding insert_ordered
ordered le [] = []
ordered le (a ∷ rest) = insert_ordered le a (ordered le rest)

unfoldable pub joined_members : Uuid → List IdentityRow → List MembershipRow → List Member
unfolding joined_member
joined_members tenant ids [] = []
joined_members tenant ids (m ∷ rest) =
    let later = joined_members tenant ids rest in
    if m.tenant_id == tenant
    then elim (joined_member ids m) [ none ↦ later | some a ↦ a ∷ later ]
    else later

-- Members, in the order of the database's collation.
unfoldable pub list_members :
    Env → (Member → Member → Bool) → Uuid → Action RepoError Db (List Member)
unfolding in_tenant_tx ◌>>◌ sent query joined_members ordered
list_members env by_name tenant = in_tenant_tx env do
  sent env select_membership
  query (λ db. ordered by_name (joined_members tenant db.identities db.memberships))

unfoldable pub owner_state : MembershipRow → IdentityRow → CredentialRow → OwnerState
owner_state m i c = record {
  identity_id = i.id;
  name = or_empty i.name;
  email = or_empty i.email;
  identity_status = i.status;
  membership_status = m.status;
  must_change_password = c.must_change_password;
  delivery_status = c.delivery_status;
}

unfoldable pub joined_owner : Db → MembershipRow → Option OwnerState
unfolding identity_of credential_of owner_state
joined_owner db m = elim (identity_of m.identity_id db.identities) [
  | none ↦ none
  | some i ↦ elim (credential_of i.id db.credentials) [
    | none ↦ none
    | some c ↦ some (owner_state m i c)
  ]
]

unfoldable pub joined_owners : Uuid → Db → List MembershipRow → List OwnerState
unfolding joined_owner
joined_owners tenant db [] = []
joined_owners tenant db (m ∷ rest) =
    let later = joined_owners tenant db rest in
    if m.tenant_id == tenant && str_eq m.role "OWNER"
    then elim (joined_owner db m) [ none ↦ later | some o ↦ o ∷ later ]
    else later

-- The scan of a NULL email into a string fails.
unfoldable pub is_unreadable : Uuid → Db → MembershipRow → Bool
unfolding identity_of credential_of
is_unreadable tenant db m =
    m.tenant_id == tenant
    && str_eq m.role "OWNER"
    && elim (identity_of m.identity_id db.identities) [
      | none ↦ false
      | some i ↦ elim (credential_of i.id db.credentials) [
        | none ↦ false
        | some c ↦ elim i.email [ none ↦ true | some e ↦ false ]
      ]
    ]

-- Owners, in the order of the database's collation.
unfoldable pub list_owners :
    Env → (OwnerState → OwnerState → Bool) → Uuid → Action RepoError Db (List OwnerState)
unfolding in_tenant_tx ◌>>=◌ ◌>>◌ sent query stop_if is_unreadable joined_owners ordered
list_owners env by_email tenant = in_tenant_tx env do
  sent env select_membership
  bad ← query (λ db. any (is_unreadable tenant db) db.memberships)
  stop_if bad failed
  query (λ db. ordered by_email (joined_owners tenant db db.memberships))
