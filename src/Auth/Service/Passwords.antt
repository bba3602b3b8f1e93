-- ===== src/Auth/Service/Passwords.antt =====
-- services/auth-service/internal/service/service.go: ChangePassword.
use shearix_platform.Shared.{
  String, Bool, false, ◌||◌, ◌≡◌, ◌≤◌, [], byte_length, if◌then◌else◌, subst, none, some, List, In,
  here, there, ◌∷◌, str_eq, ◌==◌, arith, Bool-cases, inl, inr,
}
use shearix_platform.Shared.Actions.{
  Action, ◌>>=◌, ◌>>◌, Gives, go_on, done, stop_if, query, write, must, call, call-Gives,
}
use shearix_platform.Platform.Ids.{Uuid}
use shearix_platform.Platform.Transactions.{transaction, atomic, rolled_back}
use shearix_platform.Platform.Transactions.Keeping.{
  Ensures, Ensures-guard, Ensures-must, Ensures->>=,
}
use shearix_platform.Auth.Domain.{StaffPrincipal, ChangePasswordInput}
use shearix_platform.Auth.Store.{Db, Env, SessionRow, CredentialRow}
use shearix_platform.Auth.Repository.{sent, in_tenant_tx, update_credentials, change_credentials}
use shearix_platform.Auth.Repository.Sessions.{
  is_other_session, with_revoked, change_password, change_password_body, replace_password,
}
use shearix_platform.Auth.Repository.Live.{revoke_sessions-In}
use shearix_platform.Auth.Service.{
  AuthError, World, Setting, on_db, authorized, hashed, no_hash, refused_password, or_unauthorized,
}
use shearix_platform.Auth.Service.Renewal.{update_password}

-- Who stays signed in after a ChangePassword, and with which password.
pub record PasswordChanged (set : Setting) (p : StaffPrincipal) (input : ChangePasswordInput)
    (u : Unit {0}) (left : World) : Type 0 where
  pub hash : String
  pub hash_of : set.crypto.hash_password input.new_password ≡ some hash
  pub long : 10 ≤ byte_length input.new_password
  pub short : byte_length input.new_password ≤ 256
  pub only_session :
      (s : SessionRow)
      → In s left.db.sessions
      → s.identity_id ≡ p.identity_id
      → s.revoked_at ≡ none
      → s.id ≡ p.session_id
  pub stored :
      (c : CredentialRow)
      → In c left.db.credentials
      → c.identity_id ≡ p.identity_id
      → (c.password_hash ≡ hash) × (c.must_change_password ≡ false)

update_credentials-In :
    (p : CredentialRow → Bool) (f : CredentialRow → CredentialRow) (cs : List CredentialRow)
    (c : CredentialRow)
    → In c (update_credentials p f cs)
    → (old : CredentialRow) × (c ≡ (if p old then f old else old))
unfolding update_credentials
update_credentials-In p f [] c m = elim m [ ]
update_credentials-In p f (x ∷ cs) c (here e) = (x, e)
update_credentials-In p f (x ∷ cs) c (there m) = update_credentials-In p f cs c m

change_password-Gives :
    (env : Env) (tenant identity keep : Uuid) (hash : String) (db : Db) (u : Unit {0})
    → Gives (change_password env tenant identity keep hash) db u
    → (change_password env tenant identity keep hash db).1
      ≡ with_revoked env.now (is_other_session identity (some keep)) (
          change_credentials
            (λ c. c.identity_id == identity)
            (λ c. record c { password_hash = hash; must_change_password = false })
            db)
unfolding change_password change_password_body replace_password in_tenant_tx transaction atomic
    rolled_back sent ◌>>=◌ ◌>>◌ go_on stop_if query write must done
change_password-Gives env tenant identity keep hash db u h = ground arith

kept_session :
    (identity keep : Uuid) (s : SessionRow)
    → is_other_session identity (some keep) s ≡ false
    → s.identity_id ≡ identity
    → s.revoked_at ≡ none
    → s.id ≡ keep
unfolding is_other_session
kept_session identity keep s h i r = ground arith

changed_row :
    (identity : Uuid) (hash : String) (old c : CredentialRow)
    → c ≡ (
        if old.identity_id == identity
        then record old { password_hash = hash; must_change_password = false }
        else old)
    → c.identity_id ≡ identity
    → (c.password_hash ≡ hash) × (c.must_change_password ≡ false)
changed_row identity hash old c e i = elim (Bool-cases (old.identity_id == identity)) [
  | inl t ↦ ground arith
  | inr t ↦ ground arith
]

replaced :
    (env : Env) (set : Setting) (tenant : Uuid) (p : StaffPrincipal) (input : ChangePasswordInput)
    (hash : String)
    → (refused_password input.new_password || str_eq input.current_password "") ≡ false
    → set.crypto.hash_password input.new_password ≡ some hash
    → Ensures
        (PasswordChanged set p input)
        (authorized (change_password env tenant p.identity_id p.session_id hash))
unfolding authorized call on_db refused_password
replaced env set tenant p input hash size made = record {
  told = λ w u h.
      let op = change_password env tenant p.identity_id p.session_id hash in
      let left =
        change_password-Gives env tenant p.identity_id p.session_id hash w.db u
          (call-Gives or_unauthorized (on_db op) w u h) in
      let old =
        change_credentials (λ c. c.identity_id == p.identity_id)
          (λ c. record c { password_hash = hash; must_change_password = false }) w.db in
      record {
        hash = hash;
        hash_of = made;
        long = ground (arith, size);
        short = ground (arith, size);
        only_session = λ s m i r.
            let (was, spared) =
              revoke_sessions-In env.now (is_other_session p.identity_id (some p.session_id))
                old.sessions s (subst (λ (x : Db). In s x.sessions) left m) r in
            kept_session p.identity_id p.session_id s spared i r;
        stored = λ c m i.
            let (row, e) =
              update_credentials-In (λ c. c.identity_id == p.identity_id)
                (λ c. record c { password_hash = hash; must_change_password = false })
                w.db.credentials c (subst (λ (x : Db). In c x.credentials) left m) in
            changed_row p.identity_id hash row c e i;
      };
}

Ensures-hashed :
    {B : Type 0} (Q : B → World → Type 0) (set : Setting) (password : String)
    (next : String → Action AuthError World B)
    → ((hash : String) → set.crypto.hash_password password ≡ some hash → Ensures Q (next hash))
    → Ensures Q (hashed set password >>= next)
unfolding hashed
Ensures-hashed Q set password next k =
    Ensures-must Q no_hash (set.crypto.hash_password password) next k

-- After a ChangePassword without an error the new password has 10 to 256 bytes, every credential of
-- the principal's identity holds its hash and need not be changed again, and every session of that
-- identity that is not revoked, at any tenant, is the session that asked.
pub update_password-PasswordChanged :
    (env : Env) (set : Setting) (tenant : Uuid) (p : StaffPrincipal) (input : ChangePasswordInput)
    (w : World)
    → Gives (update_password env set tenant p input) w tt
    → PasswordChanged set p input tt (update_password env set tenant p input w).1
unfolding update_password
update_password-PasswordChanged env set tenant p input w h =
    (changed env set tenant p input).told w tt h
  where
    changed :
        (env : Env) (set : Setting) (tenant : Uuid) (p : StaffPrincipal)
        (input : ChangePasswordInput)
        → Ensures (PasswordChanged set p input) (update_password env set tenant p input)
    changed env set tenant p input =
        search (Ensures-guard, Ensures-hashed, Ensures->>=, replaced) depth 20
