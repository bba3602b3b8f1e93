-- ===== src/Auth/Service/Owners.antt =====
-- services/auth-service/internal/service/service.go: the owners of the tenants under each request.
use shearix_platform.Shared.{
  String, Bool, true, false, ◌≡◌, ◌∙◌, Option, none, some, List, Result, ok, err, Bool-cases, inl,
  inr,
}
use shearix_platform.Shared.Actions.{Action, call}
use shearix_platform.Platform.Ids.{Uuid}
use shearix_platform.Platform.Email.{
  Message, Delivery, Sent, send_with_retry, delivered, refused, gave_up, cancelled,
}
use shearix_platform.Platform.Transactions.{Keeps}
use shearix_platform.Platform.Transactions.Keeping.{keeps_rules}
use shearix_platform.Auth.Domain.{StaffPrincipal, LoginInput, ChangePasswordInput}
use shearix_platform.Auth.Store.{Db, Env, RepoError, MembershipRow}
use shearix_platform.Auth.Repository.{Credential}
use shearix_platform.Auth.Repository.Owners.{
  owner_rows, credential_by_email-owner_rows, create_session-owner_rows, revoke_session-owner_rows,
  change_password-owner_rows, reset_password-owner_rows, get_session-owner_rows,
  has_active_membership-owner_rows,
}
use shearix_platform.Auth.Service.{
  World, Setting, on_db, stored, guarded, authorized, new_password, hashed, open_session, send,
  posted, login, current, sign_out, logout,
}
use shearix_platform.Auth.Service.Renewal.{
  update_password, mail_new_password, reset_member, reset_found, reset_by_email, forgot_by,
  forgot_password,
}

abbrev pub ToldOwners : List MembershipRow → World → Type 0
ToldOwners rows w = owner_rows w.db ≡ rows

module _ (rows : List MembershipRow) {A : Type 0} (op : Action RepoError Db A)
    (kept : (db : Db) → owner_rows (op db).1 ≡ owner_rows db) where
  pub stored-Keeps : Keeps (ToldOwners rows) (stored op)
  unfolding stored call on_db
  stored-Keeps = record { at = λ w h. kept w.db ∙ h }

  pub guarded-Keeps : Keeps (ToldOwners rows) (guarded op)
  unfolding guarded call on_db
  guarded-Keeps = record { at = λ w h. kept w.db ∙ h }

  pub authorized-Keeps : Keeps (ToldOwners rows) (authorized op)
  unfolding authorized call on_db
  authorized-Keeps = record { at = λ w h. kept w.db ∙ h }

module _ (rows : List MembershipRow) where
  open_session-Keeps :
      (env : Env) (set : Setting) (tenant identity : Uuid) (token : String × String)
      → Keeps (ToldOwners rows) (open_session env set tenant identity token)
  unfolding open_session
  open_session-Keeps env set tenant identity token =
      search (keeps_rules, authorized-Keeps, create_session-owner_rows)

  pub login-Keeps :
      (env : Env) (set : Setting) (tenant : Uuid) (input : LoginInput)
      → Keeps (ToldOwners rows) (login env set tenant input)
  unfolding login
  login-Keeps env set tenant input =
      search (keeps_rules, open_session-Keeps, guarded-Keeps, credential_by_email-owner_rows) depth
        20

  pub current-Keeps :
      (env : Env) (set : Setting) (tenant : Uuid) (token : String)
      → Keeps (ToldOwners rows) (current env set tenant token)
  unfolding current
  current-Keeps env set tenant token =
      search (keeps_rules, authorized-Keeps, get_session-owner_rows)

  sign_out-Keeps :
      (env : Env) (set : Setting) (tenant : Uuid) (token : String) (b : Bool)
      → Keeps (ToldOwners rows) (sign_out env set tenant token b)
  unfolding sign_out
  sign_out-Keeps env set tenant token true = search keeps_rules
  sign_out-Keeps env set tenant token false = search (stored-Keeps, revoke_session-owner_rows)

  pub logout-Keeps :
      (env : Env) (set : Setting) (tenant : Uuid) (token : String)
      → Keeps (ToldOwners rows) (logout env set tenant token)
  unfolding logout
  logout-Keeps env set tenant token = sign_out-Keeps env set tenant token _

  pub hashed-Keeps :
      (set : Setting) (password : String) → Keeps (ToldOwners rows) (hashed set password)
  unfolding hashed
  hashed-Keeps set password = search keeps_rules

  pub new_password-Keeps : (set : Setting) → Keeps (ToldOwners rows) (new_password set)
  unfolding new_password
  new_password-Keeps set = search keeps_rules

  posted-ToldOwners :
      (m : Message) (r : Sent) (w : World) → ToldOwners rows w → ToldOwners rows (posted m r w)
  unfolding posted
  posted-ToldOwners m delivered w h = h
  posted-ToldOwners m refused w h = h
  posted-ToldOwners m gave_up w h = h
  posted-ToldOwners m cancelled w h = h

  pub send-Keeps : (d : Delivery) (m : Message) → Keeps (ToldOwners rows) (send d m)
  unfolding send
  send-Keeps d m = record { at = λ w h. posted-ToldOwners m (send_with_retry d 3).result w h }

  pub update_password-Keeps :
      (env : Env) (set : Setting) (tenant : Uuid) (p : StaffPrincipal) (input : ChangePasswordInput)
      → Keeps (ToldOwners rows) (update_password env set tenant p input)
  unfolding update_password
  update_password-Keeps env set tenant p input =
      search
        (
          keeps_rules, authorized-Keeps, guarded-Keeps, credential_by_email-owner_rows,
          change_password-owner_rows,
        )
        depth 20

  mail_new_password-Keeps :
      (env : Env) (set : Setting) (d : Delivery) (tenant identity : Uuid) (email : String)
      → Keeps (ToldOwners rows) (mail_new_password env set d tenant identity email)
  unfolding mail_new_password
  mail_new_password-Keeps env set d tenant identity email =
      search (keeps_rules, new_password-Keeps, send-Keeps, stored-Keeps, reset_password-owner_rows)
        depth 20

  reset_member-Keeps :
      (env : Env) (set : Setting) (d : Delivery) (tenant identity : Uuid) (email : String)
      (b : Bool)
      → Keeps (ToldOwners rows) (reset_member env set d tenant identity email b)
  unfolding reset_member
  reset_member-Keeps env set d tenant identity email false = search keeps_rules
  reset_member-Keeps env set d tenant identity email true =
      mail_new_password-Keeps env set d tenant identity email

  reset_found-Keeps :
      (env : Env) (set : Setting) (d : Delivery) (tenant : Uuid) (email : String)
      (r : Result RepoError Credential)
      → Keeps (ToldOwners rows) (reset_found env set d tenant email r)
  unfolding reset_found
  reset_found-Keeps env set d tenant email (err e) = search keeps_rules
  reset_found-Keeps env set d tenant email (ok c) = elim (Bool-cases c.active) [
    | inl e ↦ rw e (
        search (keeps_rules, stored-Keeps, has_active_membership-owner_rows, reset_member-Keeps)
          depth 20)
    | inr e ↦ rw e (search keeps_rules)
  ]

  reset_by_email-Keeps :
      (env : Env) (set : Setting) (d : Delivery) (tenant : Uuid) (email : String)
      → Keeps (ToldOwners rows) (reset_by_email env set d tenant email)
  unfolding reset_by_email on_db
  reset_by_email-Keeps env set d tenant email = record {
    at = λ w h.
        (reset_found-Keeps env set d tenant email _).at _
          (credential_by_email-owner_rows env email w.db ∙ h);
  }

  forgot_by-Keeps :
      (env : Env) (set : Setting) (tenant : Uuid) (email : Option String) (sender : Option Delivery)
      → Keeps (ToldOwners rows) (forgot_by env set tenant email sender)
  unfolding forgot_by
  forgot_by-Keeps env set tenant none sender = search keeps_rules
  forgot_by-Keeps env set tenant (some email) none = search keeps_rules
  forgot_by-Keeps env set tenant (some email) (some d) = reset_by_email-Keeps env set d tenant email

  pub forgot_password-Keeps :
      (env : Env) (set : Setting) (tenant : Uuid) (address : String)
      → Keeps (ToldOwners rows) (forgot_password env set tenant address)
  unfolding forgot_password
  forgot_password-Keeps env set tenant address = forgot_by-Keeps env set tenant _ set.sender
