-- ===== src/Auth/Repository/Deliveries.antt =====
-- services/auth-service/internal/repository/repository.go: the delivery of an initial password.
use shearix_platform.Shared.{
  ◌+◌, String, Bool, true, false, ◌&&◌, ◌||◌, not, Option, none, some, ◌==◌, str_eq, ℤ, pos,
}
use shearix_platform.Shared.Actions.{Action, ◌>>=◌, done, stop_if}
use shearix_platform.GoTime.{Time, add, before}
use shearix_platform.Platform.Ids.{Uuid}
use shearix_platform.Auth.Store.{
  CredentialRow, Db, RepoError, not_found, claim_delivery, mark_delivery, activate_credential, Env,
  null_if_empty,
}
use shearix_platform.Auth.Repository.{updated_any}

-- interval '2 minutes'
abbrev lease : ℤ
lease = pos 120000000000

unfoldable pub is_lapsed : Time → Option Time → Bool
is_lapsed now none = false
is_lapsed now (some t) = before t now

unfoldable pub is_claimable : Env → Uuid → CredentialRow → Bool
unfolding is_lapsed
is_claimable env identity c =
    c.identity_id == identity
    && (str_eq c.delivery_status "pending"
        || str_eq c.delivery_status "failed"
        || str_eq c.delivery_status "sending" && is_lapsed env.now c.claim_until)

abbrev pub claimed_credential : Env → CredentialRow → CredentialRow
claimed_credential env c = record c {
  delivery_status = "sending";
  claim_token = some env.claim;
  claim_until = some (add env.now lease);
}

-- ClaimInitialDelivery: the token, and whether it was claimed.
unfoldable pub claim_initial_delivery : Env → Uuid → Action RepoError Db (Uuid × Bool)
unfolding ◌>>=◌ done updated_any is_claimable
claim_initial_delivery env identity = do
  hit ← updated_any env claim_delivery (is_claimable env identity) (claimed_credential env)
  done (env.claim, hit)

unfoldable pub holds_claim : Uuid → Uuid → CredentialRow → Bool
holds_claim identity claim c =
    c.identity_id == identity && elim c.claim_token [ none ↦ false | some t ↦ t == claim ]

abbrev pub marked_credential : String → String → CredentialRow → CredentialRow
marked_credential status problem c = record c {
  delivery_status = status;
  delivery_attempts = c.delivery_attempts + 1;
  delivery_error = null_if_empty problem;
  claim_token = none;
  claim_until = none;
}

-- MarkInitialDelivery
unfoldable pub mark_initial_delivery :
    Env → Uuid → Uuid → String → String → Action RepoError Db (Unit {0})
unfolding ◌>>=◌ updated_any holds_claim stop_if
mark_initial_delivery env identity claim status problem = do
  hit ←
      updated_any env mark_delivery (holds_claim identity claim) (marked_credential status problem)
  stop_if (not hit) not_found

unfoldable pub holds_sending : Uuid → Uuid → CredentialRow → Bool
unfolding holds_claim
holds_sending identity claim c = holds_claim identity claim c && str_eq c.delivery_status "sending"

abbrev pub activated_credential : String → CredentialRow → CredentialRow
activated_credential hash c = record c {
  password_hash = hash;
  must_change_password = true;
  delivery_status = "sent";
  delivery_attempts = c.delivery_attempts + 1;
  delivery_error = none;
  claim_token = none;
  claim_until = none;
}

-- ActivateRetriedCredential
unfoldable pub activate_retried_credential :
    Env → Uuid → Uuid → String → Action RepoError Db (Unit {0})
unfolding ◌>>=◌ updated_any holds_sending stop_if
activate_retried_credential env identity claim hash = do
  hit ←
      updated_any env activate_credential (holds_sending identity claim) (activated_credential hash)
  stop_if (not hit) not_found
