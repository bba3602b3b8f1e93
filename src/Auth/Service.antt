-- ===== src/Auth/Service.antt =====
-- services/auth-service/internal/service/service.go: signing in and out, and passwords.
pub mod Staff
pub mod Owners
pub mod Roles
pub mod Requests
pub mod SignedIn
pub mod Passwords
pub mod Renewal
use shearix_platform.Shared.{
  ℕ, String, Bool, true, false, ◌&&◌, ◌||◌, not, Option, none, some, List, [], ◌∷◌, str_append,
  str_eq, byte_length, leb, ltb, ◌==◌, Result, ok, err, ◌≡◌, if◌then◌else◌, ℤ,
}
use shearix_platform.Shared.Actions.{Action, ◌>>=◌, ◌>>◌, done, fail, stop_if, call, must}
use shearix_platform.GoTime.{Time, add}
use shearix_platform.Platform.Ids.{Uuid}
use shearix_platform.Platform.Library.{Library}
use shearix_platform.Platform.Email.{
  Message, Delivery, Report, Sent, delivered, refused, gave_up, cancelled, send_with_retry,
}
use shearix_platform.Auth.Domain.{StaffPrincipal, LoginInput, ChangePasswordInput, StaffSession}
use shearix_platform.Auth.Store.{Db, Env, RepoError, not_found, no_rows, failed}
use shearix_platform.Auth.Repository.{Credential, credential_by_email}
use shearix_platform.Auth.Repository.Members.{has_active_membership}
use shearix_platform.Auth.Repository.Sessions.{
  create_session, get_session, revoke_session, change_password, reset_password,
}

pub data AuthError : Type 0 where
  unauthorized invalid_input forbidden delivery_unavailable delivery_in_progress : AuthError
  repository : RepoError → AuthError
  no_randomness no_hash : AuthError

-- The tables, and the messages that the provider accepted, the last one first.
pub record World : Type 0 where
  pub db : Db
  pub mailed : List Message

-- crypto/rand, bcrypt, encoding/base64 and crypto/sha256: bytes are texts.
pub record Crypto : Type 0 where
  -- rand.Read of 18 bytes for a password, of 32 bytes for a token; `none` is an error.
  pub random_password : Option String
  pub random_token : Option String
  -- bcrypt.CompareHashAndPassword answers nil; bcrypt.GenerateFromPassword
  pub matches : String → String → Bool
  pub hash_password : String → Option String
  -- base64.RawURLEncoding
  pub encode : String → String
  pub decode : String → Option String
  pub sha256 : String → String

-- What surrounds a request: sessionTTL, uuid.NewString, and the sender, if there is one.
pub record Setting : Type 0 where
  pub lib : Library
  pub crypto : Crypto
  pub session_ttl : ℤ
  pub key : String
  pub sender : Option Delivery

unfoldable pub on_db : {A : Type 0} → Action RepoError Db A → Action RepoError World A
on_db op w = let (r, db) = op w.db in (r, record { db = db; mailed = w.mailed })

-- A call of the repository whose error is passed on.
unfoldable pub stored : {A : Type 0} → Action RepoError Db A → Action AuthError World A
unfolding call on_db
stored op = call repository (on_db op)

unfoldable pub or_unauthorized : RepoError → AuthError
or_unauthorized not_found = unauthorized
or_unauthorized no_rows = repository no_rows
or_unauthorized failed = repository failed

-- A call whose ErrNotFound is ErrUnauthorized.
unfoldable pub authorized : {A : Type 0} → Action RepoError Db A → Action AuthError World A
unfolding call on_db or_unauthorized
authorized op = call or_unauthorized (on_db op)

-- A call of which every error is ErrUnauthorized.
unfoldable pub guarded : {A : Type 0} → Action RepoError Db A → Action AuthError World A
unfolding call on_db
guarded op = call (λ e. unauthorized) (on_db op)

-- normalizeEmail
unfoldable pub normalize_email : Library → String → Option String
unfolding byte_length
normalize_email lib value =
    let v = lib.to_lower (lib.trim_space value) in
    elim (lib.parse_address v) [
      | none ↦ none
      | some address ↦ if not (str_eq address v) || ltb 320 (byte_length v) then none else some v
    ]

-- validateNewPassword: the password is refused.
unfoldable pub refused_password : String → Bool
unfolding byte_length
refused_password p = ltb (byte_length p) 10 || ltb 256 (byte_length p)

-- newPassword
unfoldable pub new_password : Setting → Action AuthError World String
unfolding ◌>>=◌ must done
new_password set = do
  bytes ← must no_randomness set.crypto.random_password
  done (set.crypto.encode bytes)

-- hashPassword
unfoldable pub hashed : Setting → String → Action AuthError World String
unfolding must
hashed set password = must no_hash (set.crypto.hash_password password)

-- newToken, with the random bytes: the token and its digest.
unfoldable pub new_token : Crypto → String → String × String
new_token crypto bytes = (crypto.encode bytes, crypto.sha256 bytes)

-- tokenDigest
unfoldable pub token_digest : Crypto → String → Option String
token_digest crypto token = elim (crypto.decode token) [
  | none ↦ none
  | some bytes ↦ some (crypto.sha256 bytes)
]

-- What a report of SendWithRetry leaves: the accepted message is on its way.
unfoldable pub posted : Message → Sent → World → World
posted m delivered w = record { db = w.db; mailed = m ∷ w.mailed }
posted m refused w = w
posted m gave_up w = w
posted m cancelled w = w

-- platformemail.SendWithRetry(..., 3): whether the message was delivered.
unfoldable pub is_delivered : Sent → Bool
is_delivered delivered = true
is_delivered refused = false
is_delivered gave_up = false
is_delivered cancelled = false

unfoldable pub send : Delivery → Message → Action AuthError World Bool
unfolding send_with_retry posted is_delivered
send d m w = let r = (send_with_retry d 3).result in (ok (is_delivered r), posted m r w)

-- The session of an identity with a token and its digest.
unfoldable pub open_session :
    Env → Setting → Uuid → Uuid → String × String → Action AuthError World StaffSession
unfolding ◌>>=◌ done authorized
open_session env set tenant identity token = do
  principal ← authorized (create_session env tenant identity token.1 (add env.now set.session_ttl))
  done (record { principal = principal; token = token.0; expires_at = add env.now set.session_ttl })

-- Login
unfoldable pub login : Env → Setting → Uuid → LoginInput → Action AuthError World StaffSession
unfolding ◌>>=◌ ◌>>◌ must stop_if normalize_email guarded new_token open_session
login env set tenant input = do
  email ← must unauthorized (normalize_email set.lib input.email)
  stop_if (str_eq input.password "") unauthorized
  identity ← guarded (credential_by_email env email)
  stop_if (not identity.active || not (set.crypto.matches identity.password_hash input.password))
      unauthorized
  bytes ← must no_randomness set.crypto.random_token
  open_session env set tenant identity.identity_id (new_token set.crypto bytes)

-- Current
unfoldable pub current : Env → Setting → Uuid → String → Action AuthError World StaffPrincipal
unfolding ◌>>◌ stop_if authorized token_digest
current env set tenant token = do
  stop_if (str_eq token "") unauthorized
  authorized (get_session env tenant (token_digest set.crypto token))

unfoldable pub sign_out : Env → Setting → Uuid → String → Bool → Action AuthError World (Unit {0})
unfolding stored done token_digest
sign_out env set tenant token true = done tt
sign_out env set tenant token false =
    stored (revoke_session env tenant (token_digest set.crypto token))

-- Logout: without a token there is nothing to do.
unfoldable pub logout : Env → Setting → Uuid → String → Action AuthError World (Unit {0})
unfolding sign_out
logout env set tenant token = sign_out env set tenant token (str_eq token "")
