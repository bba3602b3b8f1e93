-- ===== src/Auth/Service/Renewal.antt =====
-- services/auth-service/internal/service/service.go: ChangePassword and ForgotPassword.
use shearix_platform.Shared.{
  String, Bool, true, false, ◌||◌, not, Option, none, some, str_append, str_eq, ◌==◌, Result, ok,
  err, if◌then◌else◌,
}
use shearix_platform.Shared.Actions.{Action, ◌>>=◌, ◌>>◌, done, stop_if}
use shearix_platform.Platform.Ids.{Uuid}
use shearix_platform.Platform.Email.{Message, Delivery}
use shearix_platform.Auth.Domain.{StaffPrincipal, ChangePasswordInput}
use shearix_platform.Auth.Store.{Env, RepoError}
use shearix_platform.Auth.Repository.{Credential, credential_by_email}
use shearix_platform.Auth.Repository.Members.{has_active_membership}
use shearix_platform.Auth.Repository.Sessions.{change_password, reset_password}
use shearix_platform.Auth.Service.{
  AuthError, invalid_input, unauthorized, delivery_unavailable, World, Setting, on_db, stored,
  authorized, guarded, normalize_email, refused_password, new_password, hashed, send,
}

-- ChangePassword of the service.
unfoldable pub update_password :
    Env → Setting → Uuid → StaffPrincipal → ChangePasswordInput → Action AuthError World (Unit {0})
unfolding ◌>>=◌ ◌>>◌ stop_if refused_password guarded authorized hashed
update_password env set tenant p input = do
  stop_if (refused_password input.new_password || str_eq input.current_password "") invalid_input
  identity ← guarded (credential_by_email env p.email)
  stop_if
      (not (identity.identity_id == p.identity_id)
        || not identity.active
        || not (set.crypto.matches identity.password_hash input.current_password))
      unauthorized
  hash ← hashed set input.new_password
  authorized (change_password env tenant p.identity_id p.session_id hash)

unfoldable pub reset_message : String → String → String → Message
reset_message key email password = record {
  to = email;
  subject = "Password reset";
  text =
      str_append "Your temporary password is: "
        (str_append password "\nYou must change it after signing in.");
  template = "user_password_reset";
  idempotency_key = key;
}

-- A new password is sent, and replaces the old one if it was delivered.
unfoldable pub mail_new_password :
    Env → Setting → Delivery → Uuid → Uuid → String → Action AuthError World (Unit {0})
unfolding ◌>>=◌ ◌>>◌ stop_if done new_password hashed send stored reset_message
mail_new_password env set d tenant identity email = do
  password ← new_password set
  hash ← hashed set password
  accepted ← send d (reset_message set.key email password)
  stop_if (not accepted) delivery_unavailable
  reset ← stored (reset_password env tenant identity hash)
  done tt

unfoldable pub reset_member :
    Env → Setting → Delivery → Uuid → Uuid → String → Bool → Action AuthError World (Unit {0})
unfolding done mail_new_password
reset_member env set d tenant identity email false = done tt
reset_member env set d tenant identity email true =
    mail_new_password env set d tenant identity email

-- What ForgotPassword does with the answer of CredentialByEmail: with any error it returns nil,
-- since the credential is then the zero value, which is not active.
unfoldable pub reset_found :
    Env
    → Setting
    → Delivery
    → Uuid
    → String
    → Result RepoError Credential
    → Action AuthError World (Unit {0})
unfolding ◌>>=◌ done stored reset_member
reset_found env set d tenant email (err e) = done tt
reset_found env set d tenant email (ok identity) = if not identity.active then done tt else do
  active ← stored (has_active_membership env tenant identity.identity_id)
  reset_member env set d tenant identity.identity_id email active

unfoldable pub reset_by_email :
    Env → Setting → Delivery → Uuid → String → Action AuthError World (Unit {0})
unfolding on_db reset_found
reset_by_email env set d tenant email w =
    let (r, w') = on_db (credential_by_email env email) w in reset_found env set d tenant email r w'

-- Without an email or a sender nothing is done.
unfoldable pub forgot_by :
    Env → Setting → Uuid → Option String → Option Delivery → Action AuthError World (Unit {0})
unfolding done reset_by_email
forgot_by env set tenant none sender = done tt
forgot_by env set tenant (some email) none = done tt
forgot_by env set tenant (some email) (some d) = reset_by_email env set d tenant email

-- ForgotPassword
unfoldable pub forgot_password : Env → Setting → Uuid → String → Action AuthError World (Unit {0})
unfolding normalize_email forgot_by
forgot_password env set tenant address =
    forgot_by env set tenant (normalize_email set.lib address) set.sender
