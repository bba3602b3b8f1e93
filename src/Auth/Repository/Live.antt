-- ===== src/Auth/Repository/Live.antt =====
-- services/auth-service/internal/repository/repository.go: which sessions the query of Session finds.
use shearix_platform.Shared.{
  String, Bool, true, false, ◌≡◌, refl, sym, ap, ◌∙◌, Option, none, some, List, [], ◌∷◌, first,
  first-some, In, here, there, ◌==◌, ==_iff, arith, Bool-cases, Option-cases, inl, inr,
}
use shearix_platform.GoTime.{Time, before}
use shearix_platform.Platform.Ids.{Uuid}
use shearix_platform.Auth.Domain.{StaffPrincipal}
use shearix_platform.Auth.Store.{
  IdentityRow, CredentialRow, MembershipRow, SessionRow, Db, is_active_member, is_member,
}
use shearix_platform.Auth.Repository.{identity_of, credential_of}
use shearix_platform.Auth.Repository.Sessions.{
  active_account, principal_of, is_token_session, is_live_session, session_principal, find_session,
  revoke_sessions,
}
use text.Mathlib.TextEquality.{eq_iff}

-- What stands behind a principal: a session of the tenant with the hash that is neither revoked nor
-- expired, an active membership with the principal's role, and an active identity with its credential.
pub record IsSignedIn (now : Time) (tenant : Uuid) (hash : String) (db : Db) (p : StaffPrincipal)
    : Type 0 where
  pub session : SessionRow
  pub stored : In session db.sessions
  pub own_tenant : session.tenant_id ≡ tenant
  pub own_hash : session.token_hash ≡ hash
  pub unrevoked : session.revoked_at ≡ none
  pub unexpired : before now session.expires_at ≡ true
  pub membership : MembershipRow
  pub employed : In membership db.memberships
  pub at_tenant : membership.tenant_id ≡ tenant
  pub of_identity : membership.identity_id ≡ session.identity_id
  pub active_member : membership.status ≡ "active"
  pub account : IdentityRow
  pub known : In account db.identities
  pub same_account : account.id ≡ session.identity_id
  pub active_account : account.status ≡ "active"
  pub told_session : p.session_id ≡ session.id
  pub told_identity : p.identity_id ≡ session.identity_id
  pub told_tenant : p.tenant_id ≡ tenant
  pub told_role : p.role ≡ membership.role

pub record FoundSession (now : Time) (tenant : Uuid) (hash : Option String) (db : Db)
    (ss : List SessionRow) (p : StaffPrincipal) : Type 0 where
  pub session : SessionRow
  pub stored : In session ss
  pub live : is_live_session now tenant hash session ≡ true
  pub told : session_principal tenant db session ≡ some p

later_session :
    (now : Time) (tenant : Uuid) (hash : Option String) (db : Db) (s : SessionRow)
    (ss : List SessionRow) (p : StaffPrincipal)
    → FoundSession now tenant hash db ss p
    → FoundSession now tenant hash db (s ∷ ss) p
later_session now tenant hash db s ss p f = record {
  session = f.session;
  stored = there f.stored;
  live = f.live;
  told = f.told;
}

pub find_session-FoundSession :
    (now : Time) (tenant : Uuid) (hash : Option String) (db : Db) (ss : List SessionRow)
    (p : StaffPrincipal)
    → find_session now tenant hash db ss ≡ some p
    → FoundSession now tenant hash db ss p
unfolding find_session
find_session-FoundSession now tenant hash db [] p h = absurd (cc)
find_session-FoundSession now tenant hash db (s ∷ ss) p h =
    elim (Bool-cases (is_live_session now tenant hash s)) [
      | inr e ↦
          later_session now tenant hash db s ss p
            (find_session-FoundSession now tenant hash db ss p (ground (arith, e)))
      | inl e ↦ elim (Option-cases (session_principal tenant db s)) [
        | inl e' ↦
            later_session now tenant hash db s ss p
              (find_session-FoundSession now tenant hash db ss p (ground (arith, e, e')))
        | inr (q, e') ↦ record {
          session = s;
          stored = here refl;
          live = e;
          told = ground (arith, e, e');
        }
      ]
    ]

-- The rows that a session's principal was joined from.
joined :
    (tenant : Uuid) (db : Db) (s : SessionRow) (p : StaffPrincipal)
    → session_principal tenant db s ≡ some p
    → (m : MembershipRow) × (i : IdentityRow) × (c : CredentialRow) × (first
          (is_active_member tenant s.identity_id)
          db.memberships
        ≡ some m)
      × (active_account s.identity_id db ≡ some (i, c))
      × (principal_of tenant s.identity_id s.id m (i, c) ≡ p)
unfolding session_principal
joined tenant db s p h =
    elim (Option-cases (first (is_active_member tenant s.identity_id) db.memberships)) [
      | inl e ↦ absurd (ground (arith, e))
      | inr (m, e) ↦ elim (Option-cases (active_account s.identity_id db)) [
        | inl e' ↦ absurd (ground (arith, e, e'))
        | inr ((i, c), e') ↦ (m, i, c, e, e', ground (arith, e, e'))
      ]
    ]

live_session :
    (now : Time) (tenant : Uuid) (hash : String) (s : SessionRow)
    → is_live_session now tenant (some hash) s ≡ true
    → (s.tenant_id ≡ tenant)
      × (s.token_hash ≡ hash)
      × (s.revoked_at ≡ none)
      × (before now s.expires_at ≡ true)
unfolding is_live_session is_token_session
live_session now tenant hash s h = elim (Option-cases s.revoked_at) [
  | inl e ↦ (ground arith, (eq_iff s.token_hash hash).0 (ground arith), e, ground arith)
  | inr (t, e) ↦ absurd (ground (arith, e))
]

active_member_of :
    (tenant identity : Uuid) (m : MembershipRow)
    → is_active_member tenant identity m ≡ true
    → (m.tenant_id ≡ tenant) × (m.identity_id ≡ identity) × (m.status ≡ "active")
unfolding is_active_member is_member
active_member_of tenant identity m h =
    (ground arith, ground arith, (eq_iff m.status "active").0 (ground arith))

account_of :
    (id : Uuid) (db : Db) (i : IdentityRow) (c : CredentialRow)
    → active_account id db ≡ some (i, c)
    → (identity_of id db.identities ≡ some i) × (i.status ≡ "active")
unfolding active_account
account_of id db i c h = elim (Option-cases (identity_of id db.identities)) [
  | inl e ↦ absurd (ground (arith, e))
  | inr (i', e) ↦ elim (Option-cases (credential_of id db.credentials)) [
    | inl e' ↦ absurd (ground (arith, e, e'))
    | inr (c', e') ↦
        let same : i' ≡ i = ground (arith, e, e') in
        (e ∙ ap some same, (eq_iff i.status "active").0 (ground (arith, e, e', same)))
  ]
]

pub FoundSession-IsSignedIn :
    (now : Time) (tenant : Uuid) (hash : String) (db : Db) (p : StaffPrincipal)
    → FoundSession now tenant (some hash) db db.sessions p
    → IsSignedIn now tenant hash db p
unfolding identity_of principal_of
FoundSession-IsSignedIn now tenant hash db p f =
    let s = f.session in
    let (t, h, r, x) = live_session now tenant hash s f.live in
    let (m, i, c, found, account, told) = joined tenant db s p f.told in
    let (passes, there_m) =
      first-some (is_active_member tenant s.identity_id) db.memberships found in
    let (at, of, active) = active_member_of tenant s.identity_id m passes in
    let (row, is_active) = account_of s.identity_id db i c account in
    let (same, there_i) =
      first-some (λ (j : IdentityRow). j.id == s.identity_id) db.identities row in
    record {
      session = s;
      stored = f.stored;
      own_tenant = t;
      own_hash = h;
      unrevoked = r;
      unexpired = x;
      membership = m;
      employed = there_m;
      at_tenant = at;
      of_identity = of;
      active_member = active;
      account = i;
      known = there_i;
      same_account = (==_iff i.id s.identity_id).0 same;
      active_account = is_active;
      told_session = sym (ap (λ (q : StaffPrincipal). q.session_id) told);
      told_identity = sym (ap (λ (q : StaffPrincipal). q.identity_id) told);
      told_tenant = sym (ap (λ (q : StaffPrincipal). q.tenant_id) told);
      told_role = sym (ap (λ (q : StaffPrincipal). q.role) told);
    }

revoked_dead :
    (now : Time) (tenant : Uuid) (hash : Option String) (s : SessionRow)
    → is_token_session tenant hash (record s { revoked_at = some now }) ≡ false
unfolding is_token_session
revoked_dead now tenant none s = refl
revoked_dead now tenant (some hash) s = ground arith

-- Revoked rows are found no more.
pub find_session-revoke_sessions :
    (now later : Time) (tenant : Uuid) (hash : Option String) (db : Db) (ss : List SessionRow)
    → find_session later tenant hash db (revoke_sessions now (is_token_session tenant hash) ss)
      ≡ none
unfolding find_session revoke_sessions is_live_session
find_session-revoke_sessions now later tenant hash db [] = refl
find_session-revoke_sessions now later tenant hash db (s ∷ ss) =
    elim (Bool-cases (is_token_session tenant hash s)) [
      | inl e ↦ ground (
        arith,
        e,
        revoked_dead now tenant hash s,
        find_session-revoke_sessions now later tenant hash db ss,
      )
      | inr e ↦ ground (arith, e, find_session-revoke_sessions now later tenant hash db ss)
    ]

-- A row of the new list that is not revoked was in the old one and did not pass the test.
pub revoke_sessions-In :
    (now : Time) (p : SessionRow → Bool) (ss : List SessionRow) (s : SessionRow)
    → In s (revoke_sessions now p ss)
    → s.revoked_at ≡ none
    → In s ss × (p s ≡ false)
unfolding revoke_sessions
revoke_sessions-In now p [] s m r = elim m [ ]
revoke_sessions-In now p (x ∷ ss) s (here e) r = elim (Bool-cases (p x)) [
  | inl t ↦ absurd (ground (arith, t, e, r))
  | inr t ↦ let same : s ≡ x = ground (arith, t, e) in (here same, rw same t)
]
revoke_sessions-In now p (x ∷ ss) s (there m) r =
    let (old, t) = revoke_sessions-In now p ss s m r in (there old, t)
