-- ===== src/Tests/Staff.antt =====
-- The staff of one tenant: an owner signs in, is identified, changes the password and signs out.
use shearix_platform.Shared.{
  ℕ, String, true, false, ◌≡◌, ◌≢◌, refl, none, some, List, [], ◌∷◌, str_eq, ok, ◌+ℤ◌, pos, arith,
  any, first, byte_length, byte_count, ap, if◌then◌else◌, ◌==◌,
}
use shearix_platform.Shared.Actions.{
  Gives, ◌>>=◌, ◌>>◌, go_on, done, stop_if, query, write, must, call, renamed,
}
use shearix_platform.Platform.Email.{Delivery, accepted, temporary, send_with_retry}
use shearix_platform.Platform.Email.Bounded.{IsBounded, send_with_retry-IsBounded}
use shearix_platform.Platform.Transactions.{transaction, atomic, rolled_back}
use shearix_platform.Auth.Domain.{StaffPrincipal, LoginInput, ChangePasswordInput, StaffSession}
use shearix_platform.Auth.Store.{
  Env, IdentityRow, CredentialRow, MembershipRow, SessionRow, has_email, is_active_member,
  is_member,
}
use shearix_platform.Auth.Repository.{
  sent, in_tenant_tx, credential_by_email, find_by_email, credential_of, identity_of, credential,
  update_credentials,
}
use shearix_platform.Auth.Repository.Sessions.{
  create_session, create_session_body, new_session, clashes_session, active_account, principal_of,
  get_session, find_session, is_live_session, is_token_session, session_principal, revoke_session,
  revoke_sessions, change_password, change_password_body, replace_password, is_other_session,
}
use shearix_platform.Auth.Repository.Owners.{owner_rows}
use shearix_platform.Auth.Service.{
  World, Setting, Crypto, login, current, logout, token_digest, open_session, new_token,
  normalize_email, guarded, authorized, stored, or_unauthorized, on_db, sign_out, refused_password,
  hashed,
}
use shearix_platform.Auth.Service.Renewal.{update_password}
use shearix_platform.Auth.Service.Requests.{
  Call, to_login, to_change_role, to_set_status, to_logout, serve_all, serve_all-owner_rows,
}
use shearix_platform.Auth.Repository.Live.{IsSignedIn}
use shearix_platform.Auth.Service.SignedIn.{current-IsSignedIn, current-logout, current-login}
use shearix_platform.Auth.Service.Passwords.{PasswordChanged, update_password-PasswordChanged}
use text.Mathlib.TextEquality.{eq_iff}
use shearix_platform.Tests.Libraries.{plain_library}

abbrev at_time : ℕ → Env
at_time t = record { fails = λ stmt. false; now = pos t; new_id = 50; claim = 60; lower = λ s. s }

abbrev crypto : Crypto
crypto = record {
  random_password = some "abcdefghijkl";
  random_token = some "random";
  matches = λ h p. str_eq h p;
  hash_password = λ p. some p;
  encode = λ b. b;
  decode = λ t. some t;
  sha256 = λ b. b;
}

abbrev setting : Setting
setting = record {
  lib = plain_library;
  crypto = crypto;
  session_ttl = pos 100;
  key = "k";
  sender = none;
}

abbrev identity : ℕ → String → IdentityRow
identity id email = record {
  id = id;
  name = some "N";
  email = some email;
  phone = none;
  status = "active";
}

abbrev owner_credential : CredentialRow
owner_credential = record {
  identity_id = 7;
  password_hash = "first password";
  must_change_password = true;
  delivery_status = "sent";
  delivery_attempts = 1;
  delivery_error = none;
  claim_token = none;
  claim_until = none;
}

abbrev membership : ℕ → String → MembershipRow
membership id role = record {
  tenant_id = 1;
  identity_id = id;
  role = role;
  status = "active";
  created_at = pos 1;
}

abbrev world : World
world = record {
  db = record {
    identities = identity 7 "o" ∷ identity 8 "b" ∷ [];
    credentials = owner_credential ∷ [];
    memberships = membership 7 "OWNER" ∷ membership 8 "BARBER" ∷ [];
    sessions = [];
  };
  mailed = [];
}

abbrev owner : StaffPrincipal
owner = record {
  identity_id = 7;
  name = "N";
  email = "o";
  phone = "";
  must_change_password = true;
  role = "OWNER";
  tenant_id = 1;
  session_id = 50;
}

abbrev credentials : LoginInput
credentials = record { email = "o"; password = "first password" }

abbrev opened : StaffSession
opened = record { principal = owner; token = "random"; expires_at = pos 110 }

-- The tables after the owner signed in.
abbrev opened_row : SessionRow
opened_row = record {
  id = 50;
  tenant_id = 1;
  identity_id = 7;
  token_hash = "random";
  expires_at = pos 110;
  revoked_at = none;
}

abbrev signed_in : World
signed_in = record { db = record world.db { sessions = opened_row ∷ [] }; mailed = [] }

owner_signed_in : login (at_time 10) setting 1 credentials world ≡ (ok opened, signed_in)
unfolding login open_session new_token create_session create_session_body new_session
    clashes_session is_active_member is_member active_account principal_of normalize_email
    byte_length byte_count guarded authorized or_unauthorized credential_by_email find_by_email
    has_email credential_of identity_of credential ◌+ℤ◌ ◌>>=◌ ◌>>◌ go_on done stop_if query write
    must call renamed transaction atomic rolled_back on_db sent in_tenant_tx any first
owner_signed_in = refl

owner_identified : Gives (current (at_time 20) setting 1 "random") signed_in owner
unfolding current token_digest authorized or_unauthorized get_session find_session is_live_session
    is_token_session session_principal is_active_member is_member active_account principal_of
    credential_of identity_of ◌>>=◌ ◌>>◌ go_on done stop_if query write must call renamed
    transaction atomic rolled_back on_db sent in_tenant_tx any first
owner_identified = refl

owner_signed_out : Gives (logout (at_time 20) setting 1 "random") signed_in tt
unfolding logout sign_out stored token_digest revoke_session is_token_session revoke_sessions ◌>>=◌
    ◌>>◌ go_on done stop_if query write must call renamed transaction atomic rolled_back on_db sent
    in_tenant_tx any first
owner_signed_out = refl

abbrev new_password : ChangePasswordInput
new_password = record { current_password = "first password"; new_password = "second password" }

password_renewed : Gives (update_password (at_time 20) setting 1 owner new_password) signed_in tt
unfolding update_password refused_password byte_length byte_count guarded authorized or_unauthorized
    hashed credential_by_email find_by_email has_email credential_of credential change_password
    change_password_body replace_password update_credentials is_other_session revoke_sessions
    is_active_member is_member ◌>>=◌ ◌>>◌ go_on done stop_if query write must call renamed
    transaction atomic rolled_back on_db sent in_tenant_tx any first
password_renewed = refl

-- A provider that is unavailable at first, and a wait of the whole bound.
abbrev flaky : Delivery
flaky = record {
  outcome = λ n. if n == 0 then temporary else accepted;
  done_after = λ n. false;
  done_waiting = λ n. false;
  jitter = λ n bound. bound;
}

random_is_text : ◌≢◌ {A = String} "random" ""
random_is_text e = let same : str_eq "random" "" ≡ true = (eq_iff "random" "").1 e in absurd (cc)

send_with_retry-IsBounded_example : IsBounded flaky 0 2 (send_with_retry flaky 3)
send_with_retry-IsBounded_example =
    send_with_retry-IsBounded flaky (λ n bound h. (h, omega arith)) 3

abbrev calls : List Call
calls =
    (record { env = at_time 10; set = setting; tenant = 1; request = to_login credentials })
    ∷ (record {
      env = at_time 11;
      set = setting;
      tenant = 1;
      request = to_change_role owner 8 "MANAGER";
    })
    ∷ (record {
      env = at_time 12;
      set = setting;
      tenant = 1;
      request = to_set_status owner 7 false;
    })
    ∷ (record { env = at_time 13; set = setting; tenant = 1; request = to_logout "random" })
    ∷ []

serve_all-owner_rows_example : owner_rows (serve_all calls world).db ≡ owner_rows world.db
serve_all-owner_rows_example = serve_all-owner_rows calls world

current-IsSignedIn_example :
    (hash : String) × (token_digest crypto "random" ≡ some hash)
    × IsSignedIn (pos 20) 1 hash signed_in.db owner
current-IsSignedIn_example =
    current-IsSignedIn (at_time 20) setting 1 "random" signed_in owner owner_identified

current-logout_example :
    ¬ Gives
      (current (at_time 30) setting 1 "random")
      (logout (at_time 20) setting 1 "random" signed_in).1
      owner
current-logout_example =
    current-logout (at_time 20) (at_time 30) setting 1 "random" signed_in owner_signed_out owner

current-login_example :
    let left = (login (at_time 10) setting 1 credentials world).1 in
    current (at_time 20) setting 1 "random" left ≡ (ok owner, left)
current-login_example =
    current-login (at_time 10) (at_time 20) setting 1 credentials world opened
      (ap (λ x. x.0) owner_signed_in) (λ b. refl) random_is_text (λ stmt. refl) refl

update_password-PasswordChanged_example :
    PasswordChanged setting owner new_password tt
      (update_password (at_time 20) setting 1 owner new_password signed_in).1
update_password-PasswordChanged_example =
    update_password-PasswordChanged (at_time 20) setting 1 owner new_password signed_in
      password_renewed
