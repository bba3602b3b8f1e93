-- ===== src/Auth/Service/SignedIn.antt =====
-- services/auth-service/internal/service/service.go: who is signed in after Login, Logout and
-- ChangePassword.
use shearix_platform.Shared.{
  String, Bool, true, false, ◌≡◌, ◌≢◌, refl, sym, subst, Option, none, some, List, ◌∷◌, str_eq, ok,
  arith, Bool-cases, inl, inr,
}
use shearix_platform.Shared.Actions.{
  Action, ◌>>=◌, ◌>>◌, Gives, go_on, done, stop_if, query, write, must, call, renamed, call-Gives,
  >>=-Gives, stop_if-Gives, done-Gives,
}
use shearix_platform.GoTime.{Time, before, add}
use shearix_platform.Platform.Ids.{Uuid}
use shearix_platform.Platform.Transactions.{transaction, atomic, rolled_back}
use shearix_platform.Platform.Transactions.Keeping.{Ensures, ensures_rules}
use shearix_platform.Auth.Domain.{StaffPrincipal, LoginInput, StaffSession}
use shearix_platform.Auth.Store.{Db, Env, Stmt, begin_tx, commit_tx, select_session, SessionRow}
use shearix_platform.Auth.Repository.{sent, in_tenant_tx, with_session}
use shearix_platform.Auth.Repository.Sessions.{
  create_session, create_session_body, new_session, active_account, session_principal, find_session,
  is_live_session, is_token_session, get_session, revoke_session, revoke_sessions,
}
use shearix_platform.Auth.Repository.Live.{
  IsSignedIn, FoundSession, find_session-FoundSession, FoundSession-IsSignedIn,
  find_session-revoke_sessions,
}
use shearix_platform.Auth.Service.{
  AuthError, World, Setting, on_db, stored, authorized, token_digest, new_token, open_session,
  login, current, sign_out, logout, or_unauthorized, repository, unauthorized,
}
use text.Mathlib.TextEquality.{eq_iff}

get_session-Gives :
    (env : Env) (tenant : Uuid) (hash : Option String) (db : Db) (p : StaffPrincipal)
    → Gives (get_session env tenant hash) db p
    → find_session env.now tenant hash db db.sessions ≡ some p
unfolding get_session in_tenant_tx transaction atomic rolled_back sent ◌>>=◌ ◌>>◌ go_on stop_if
    query must done
get_session-Gives env tenant hash db p h = ground arith

get_session_same :
    (env : Env) (tenant : Uuid) (hash : Option String) (db : Db)
    → (get_session env tenant hash db).1 ≡ db
unfolding get_session in_tenant_tx transaction atomic rolled_back sent ◌>>=◌ ◌>>◌ go_on stop_if
    query must done
get_session_same env tenant hash db = ground arith

current-Gives :
    (env : Env) (set : Setting) (tenant : Uuid) (token : String) (w : World) (p : StaffPrincipal)
    → Gives (current env set tenant token) w p
    → (str_eq token "" ≡ false)
      × (find_session env.now tenant (token_digest set.crypto token) w.db w.db.sessions ≡ some p)
unfolding current authorized on_db
current-Gives env set tenant token w p h =
    let (e, rest, left) = stop_if-Gives (str_eq token "") unauthorized _ w p h in
    let hash = token_digest set.crypto token in
    (
      e,
      get_session-Gives env tenant hash w.db p
          (call-Gives or_unauthorized (on_db (get_session env tenant hash)) w p rest),
    )

signed_in :
    (now : Time) (tenant : Uuid) (hash : Option String) (db : Db) (p : StaffPrincipal)
    → FoundSession now tenant hash db db.sessions p
    → (h : String) × (hash ≡ some h) × IsSignedIn now tenant h db p
unfolding is_live_session is_token_session
signed_in now tenant none db p f = absurd (cc (f.live))
signed_in now tenant (some h) db p f = (h, refl, FoundSession-IsSignedIn now tenant h db p f)

-- A token is answered with a principal only if its digest is the hash of a session of the tenant
-- that is neither revoked nor expired, whose identity is active and has an active membership of the
-- tenant: the principal is that session's, that identity's, that tenant's, with the membership's role.
pub current-IsSignedIn :
    (env : Env) (set : Setting) (tenant : Uuid) (token : String) (w : World) (p : StaffPrincipal)
    → Gives (current env set tenant token) w p
    → (hash : String) × (token_digest set.crypto token ≡ some hash)
      × IsSignedIn env.now tenant hash w.db p
current-IsSignedIn env set tenant token w p h =
    let (e, found) = current-Gives env set tenant token w p h in
    signed_in env.now tenant _ w.db p (
      find_session-FoundSession env.now tenant (token_digest set.crypto token) w.db w.db.sessions p
        found)

revoke_session-sessions :
    (env : Env) (tenant : Uuid) (hash : Option String) (db : Db) (u : Unit {0})
    → Gives (revoke_session env tenant hash) db u
    → (revoke_session env tenant hash db).1.sessions
      ≡ revoke_sessions env.now (is_token_session tenant hash) db.sessions
unfolding revoke_session in_tenant_tx transaction atomic rolled_back sent ◌>>=◌ ◌>>◌ go_on stop_if
    query write done
revoke_session-sessions env tenant hash db u h = ground arith

sign_out-sessions :
    (env : Env) (set : Setting) (tenant : Uuid) (token : String) (b : Bool) (w : World)
    → b ≡ false
    → Gives (sign_out env set tenant token b) w tt
    → (sign_out env set tenant token b w).1.db.sessions
      ≡ revoke_sessions env.now
          (is_token_session tenant (token_digest set.crypto token))
          w.db.sessions
unfolding sign_out stored on_db call
sign_out-sessions env set tenant token true w e h = absurd (cc)
sign_out-sessions env set tenant token false w e h =
    let op = revoke_session env tenant (token_digest set.crypto token) in
    revoke_session-sessions env tenant _ w.db tt (call-Gives repository (on_db op) w tt h)

-- After a Logout without an error no request answers the token with a principal: at no later time,
-- whatever fails.
pub current-logout :
    (env later : Env) (set : Setting) (tenant : Uuid) (token : String) (w : World)
    → Gives (logout env set tenant token) w tt
    → (p : StaffPrincipal)
    → ¬ Gives (current later set tenant token) (logout env set tenant token w).1 p
unfolding logout
current-logout env later set tenant token w out p h =
    let w' = (logout env set tenant token w).1 in
    let hash = token_digest set.crypto token in
    let (e, found) = current-Gives later set tenant token w' p h in
    let gone : w'.db.sessions
        ≡ revoke_sessions env.now (is_token_session tenant hash) w.db.sessions =
      sign_out-sessions env set tenant token _ w e out in
    let lost : find_session later.now tenant hash w'.db w'.db.sessions ≡ none =
      subst (λ ss. find_session later.now tenant hash w'.db ss ≡ none) (sym gone)
        (find_session-revoke_sessions env.now later.now tenant hash w'.db w.db.sessions) in
    absurd (cc)

create_session-Gives :
    (env : Env) (tenant identity : Uuid) (hash : String) (expires : Time) (db : Db)
    (p : StaffPrincipal)
    → Gives (create_session env tenant identity hash expires) db p
    → ((create_session env tenant identity hash expires db).1
        ≡ with_session (new_session env tenant identity hash expires) db)
      × (session_principal tenant db (new_session env tenant identity hash expires) ≡ some p)
unfolding create_session create_session_body session_principal new_session in_tenant_tx transaction
    atomic rolled_back sent ◌>>=◌ ◌>>◌ go_on stop_if query must write done
create_session-Gives env tenant identity hash expires db p h = ground arith

find_session_head :
    (now : Time) (tenant : Uuid) (hash : Option String) (db : Db) (s : SessionRow)
    (ss : List SessionRow) (p : StaffPrincipal)
    → is_live_session now tenant hash s ≡ true
    → session_principal tenant db s ≡ some p
    → find_session now tenant hash db (s ∷ ss) ≡ some p
unfolding find_session
find_session_head now tenant hash db s ss p live told = ground arith

new_session_live :
    (env : Env) (now : Time) (tenant identity : Uuid) (hash : String) (expires : Time)
    → before now expires ≡ true
    → is_live_session now tenant (some hash) (new_session env tenant identity hash expires) ≡ true
unfolding new_session is_live_session is_token_session
new_session_live env now tenant identity hash expires e = ground (arith, (eq_iff hash hash).1 refl)

find_session-create_session :
    (env : Env) (now : Time) (tenant identity : Uuid) (hash : String) (expires : Time) (db : Db)
    (p : StaffPrincipal)
    → Gives (create_session env tenant identity hash expires) db p
    → before now expires ≡ true
    → let db' = (create_session env tenant identity hash expires db).1 in
      find_session now tenant (some hash) db' db'.sessions ≡ some p
unfolding session_principal active_account
find_session-create_session env now tenant identity hash expires db p h e =
    let (left, told) = create_session-Gives env tenant identity hash expires db p h in
    let s = new_session env tenant identity hash expires in
    subst (λ (x : Db). find_session now tenant (some hash) x x.sessions ≡ some p) (sym left)
      (find_session_head now tenant (some hash) (with_session s db) s db.sessions p
        (new_session_live env now tenant identity hash expires e) told)

-- A Login opened the session that it answers, with the digest of the bytes of its token.
pub record LoggedIn (env : Env) (set : Setting) (tenant : Uuid) (s : StaffSession) (left : World)
    : Type 0 where
  pub bytes : String
  pub token_of : s.token ≡ set.crypto.encode bytes
  pub found :
      (now : Time)
      → before now s.expires_at ≡ true
      → find_session now tenant (some (set.crypto.sha256 bytes)) left.db left.db.sessions
        ≡ some s.principal

open_session-LoggedIn :
    (env : Env) (set : Setting) (tenant identity : Uuid) (bytes : String)
    → Ensures
        (LoggedIn env set tenant)
        (open_session env set tenant identity (new_token set.crypto bytes))
unfolding open_session new_token authorized call on_db
open_session-LoggedIn env set tenant identity bytes = record {
  told = λ w s h.
      let expires = add env.now set.session_ttl in
      let op = create_session env tenant identity (set.crypto.sha256 bytes) expires in
      let answer : StaffPrincipal → StaffSession = λ (p : StaffPrincipal). record {
        principal = p;
        token = set.crypto.encode bytes;
        expires_at = expires;
      } in
      let finish : StaffPrincipal → Action AuthError World StaffSession =
        λ (p : StaffPrincipal). done (answer p) in
      let (p, e, h1, left) = >>=-Gives (authorized op) finish w s h in
      let same : answer p ≡ s = done-Gives {E = AuthError} (answer p) (authorized op w).1 s h1 in
      subst
        (λ x.
          LoggedIn env set tenant x
            (open_session env set tenant identity (new_token set.crypto bytes) w).1)
        same
        (subst (λ (x : World). LoggedIn env set tenant (answer p) x) (sym left)
          (record {
            bytes = bytes;
            token_of = refl;
            found = λ now t.
                find_session-create_session env now tenant identity (set.crypto.sha256 bytes)
                  expires w.db p (call-Gives or_unauthorized (on_db op) w p e) t;
          }));
}

login-LoggedIn :
    (env : Env) (set : Setting) (tenant : Uuid) (input : LoginInput)
    → Ensures (LoggedIn env set tenant) (login env set tenant input)
unfolding login
login-LoggedIn env set tenant input = search (ensures_rules, open_session-LoggedIn) depth 20

get_session-ok :
    (env : Env) (tenant : Uuid) (hash : Option String) (db : Db) (p : StaffPrincipal)
    → ((stmt : Stmt) → env.fails stmt ≡ false)
    → find_session env.now tenant hash db db.sessions ≡ some p
    → get_session env tenant hash db ≡ (ok p, db)
unfolding get_session in_tenant_tx transaction atomic rolled_back sent ◌>>=◌ ◌>>◌ go_on stop_if
    query must done
get_session-ok env tenant hash db p up found =
    ground (arith, up begin_tx, up select_session, up commit_tx)

current-ok :
    (env : Env) (set : Setting) (tenant : Uuid) (token : String) (w : World) (p : StaffPrincipal)
    → ((stmt : Stmt) → env.fails stmt ≡ false)
    → str_eq token "" ≡ false
    → find_session env.now tenant (token_digest set.crypto token) w.db w.db.sessions ≡ some p
    → current env set tenant token w ≡ (ok p, w)
unfolding current authorized on_db call renamed ◌>>=◌ ◌>>◌ go_on stop_if
current-ok env set tenant token w p up e found =
    ground (arith, get_session-ok env tenant (token_digest set.crypto token) w.db p up found)

token_filled : (t : String) → t ≢ "" → str_eq t "" ≡ false
token_filled t h = elim (Bool-cases (str_eq t "")) [
  | inl e ↦ absurd (h ((eq_iff t "").0 e))
  | inr e ↦ e
]

-- The token that a Login answers is answered by Current with the principal of the Login, as long as
-- the session has not expired: when no statement fails, the token is not empty and the encoding of
-- tokens can be decoded. Current changes nothing.
pub current-login :
    (env later : Env) (set : Setting) (tenant : Uuid) (input : LoginInput) (w : World)
    (s : StaffSession)
    → Gives (login env set tenant input) w s
    → ((bytes : String) → set.crypto.decode (set.crypto.encode bytes) ≡ some bytes)
    → s.token ≢ ""
    → ((stmt : Stmt) → later.fails stmt ≡ false)
    → before later.now s.expires_at ≡ true
    → let left = (login env set tenant input w).1 in
      current later set tenant s.token left ≡ (ok s.principal, left)
unfolding token_digest
current-login env later set tenant input w s h coded filled up e =
    let left = (login env set tenant input w).1 in
    let l = (login-LoggedIn env set tenant input).told w s h in
    let digest : token_digest set.crypto s.token ≡ some (set.crypto.sha256 l.bytes) =
      ground (arith, l.token_of, coded l.bytes) in
    current-ok later set tenant s.token left s.principal up (token_filled s.token filled) (
      subst (λ hash. find_session later.now tenant hash left.db left.db.sessions ≡ some s.principal)
        (sym digest) (l.found later.now e))
