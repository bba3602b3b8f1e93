-- ===== src/Notification/Repository/Claims.antt =====
-- services/notification-service: the functions that claim and finish notices, and their callers.
use shearix_platform.Shared.{
  ℕ, ◌+◌, String, Bool, true, false, ◌&&◌, ◌||◌, not, Option, none, some, List, [], ◌∷◌, map, any,
  select, take, ltb, str_eq, ◌==◌, if◌then◌else◌, ℤ, pos,
}
use shearix_platform.Shared.Actions.{Action, ◌>>=◌, ◌>>◌, done, query, write}
use shearix_platform.GoTime.{Time, add, before, after}
use shearix_platform.Platform.Ids.{Uuid}
use shearix_platform.Notification.Store.{
  Notice, Claimed, NoticeError, claim_notices, finish_notice, Env,
}
use shearix_platform.Notification.Repository.{sent, update_notices}

unfoldable pub is_lapsed : Time → Option Time → Bool
is_lapsed now none = false
is_lapsed now (some t) = before t now

-- p_tenant_id IS NULL OR tenant_id=p_tenant_id
unfoldable pub in_scope : Option Uuid → Notice → Bool
in_scope none n = true
in_scope (some tenant) n = n.tenant_id == tenant

-- The WHERE clause of claim_email_notifications_for_tenant.
unfoldable pub is_due : Time → Option Uuid → Notice → Bool
unfolding is_lapsed in_scope
is_due now tenant n =
    in_scope tenant n
    && (str_eq n.status "pending"
          && not (after n.scheduled_at now)
          && not (after n.next_attempt_at now)
        || str_eq n.status "processing" && is_lapsed now n.lease_until)

-- ORDER BY scheduled_at
unfoldable pub insert_by_time : Notice → List Notice → List Notice
insert_by_time n [] = n ∷ []
insert_by_time n (m ∷ rest) =
    if after n.scheduled_at m.scheduled_at then m ∷ insert_by_time n rest else n ∷ m ∷ rest

unfoldable pub by_time : List Notice → List Notice
unfolding insert_by_time
by_time [] = []
by_time (n ∷ rest) = insert_by_time n (by_time rest)

-- LEAST(GREATEST(p_limit,1),100)
abbrev pub batch : ℕ → ℕ
batch limit = if ltb limit 1 then 1 else if ltb 100 limit then 100 else limit

-- The candidates, when no other transaction holds a lock.
unfoldable pub candidates : Time → Option Uuid → ℕ → List Notice → List Notice
unfolding is_due by_time
candidates now tenant limit rows = take (batch limit) (by_time (select (is_due now tenant) rows))

-- interval '2 minutes'
abbrev lease : ℤ
lease = pos 120000000000

abbrev pub claimed_notice : Env → Notice → Notice
claimed_notice env n = record n {
  status = "processing";
  attempts = n.attempts + 1;
  lease_until = some (add env.now lease);
  claim_token = some (env.new_claim n.id);
}

abbrev pub claimed : Env → Notice → Claimed
claimed env n = record {
  id = n.id;
  claim_token = env.new_claim n.id;
  tenant_id = n.tenant_id;
  appointment_id = n.appointment_id;
  kind = n.kind;
  email = n.recipient;
  template = n.template;
  language = n.language;
  attempts = n.attempts + 1;
  recovered = str_eq n.status "processing";
}

-- WHERE n.id=c.id
abbrev pub is_one_of : List Notice → Notice → Bool
is_one_of chosen n = any (λ (c : Notice). c.id == n.id) chosen

-- Claim for no tenant, ClaimForTenant for one.
unfoldable pub claim : Env → Option Uuid → ℕ → Action NoticeError (List Notice) (List Claimed)
unfolding ◌>>=◌ ◌>>◌ sent query write done update_notices candidates
claim env tenant limit = do
  sent env claim_notices
  chosen ← query (candidates env.now tenant limit)
  write (update_notices (is_one_of chosen) (claimed_notice env))
  done (map (claimed env) chosen)

-- WHERE id=p_id AND status='processing' AND claim_token=p_claim_token
unfoldable pub holds_claim : Uuid → Uuid → Notice → Bool
holds_claim id token n =
    n.id == id
    && str_eq n.status "processing"
    && elim n.claim_token [ none ↦ false | some t ↦ t == token ]

abbrev pub finished_status : String → Option Time → String
finished_status message retry =
    if not (str_eq message "") then "sent" else elim retry [ none ↦ "failed" | some t ↦ "pending" ]

abbrev pub finished_notice : String → String → Option Time → Notice → Notice
finished_notice message problem retry n = record n {
  status = finished_status message retry;
  message_id = if not (str_eq message "") then some message else n.message_id;
  last_error = some problem;
  next_attempt_at = elim retry [ none ↦ n.next_attempt_at | some t ↦ t ];
  lease_until = none;
  claim_token = none;
}

-- Finish
unfoldable pub finish :
    Env → Uuid → Uuid → String → String → Option Time → Action NoticeError (List Notice) (Unit {0})
unfolding ◌>>◌ sent write update_notices holds_claim
finish env id token message problem retry = do
  sent env finish_notice
  write (update_notices (holds_claim id token) (finished_notice message problem retry))
