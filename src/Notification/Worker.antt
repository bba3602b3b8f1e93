-- ===== src/Notification/Worker.antt =====
-- services/notification-service/internal/worker/worker.go: one round of the delivery worker.
use shearix_platform.Shared.{
  ℕ, ◌^◌, String, Bool, Option, none, some, List, [], ◌∷◌, ltb, Result, ok, err, if◌then◌else◌, ℤ,
  pos,
}
use shearix_platform.GoTime.{Time, add, minutes}
use shearix_platform.Notification.Store.{Notice, Claimed, NoticeError, Env}
use shearix_platform.Notification.Repository.Claims.{claim, finish}

-- What Send answers within its timeout: the provider's message id, an error that IsTemporary knows or
-- that is a passed deadline, or another error.
pub data Outcome : Type 0 where
  accepted : String → Outcome
  temporary permanent : Outcome

unfoldable pub min : ℕ → ℕ → ℕ
min a b = if ltb a b then a else b

-- time.Duration(1<<min(item.Attempts, 5)) * time.Minute
unfoldable pub retry_after : ℕ → ℤ
unfolding min
retry_after attempts = minutes (pos (2 ^ min attempts 5))

-- The time of the next attempt, if there is one.
unfoldable pub next_attempt : Time → ℕ → Option Time
unfolding retry_after
next_attempt now attempts = if ltb attempts 5 then some (add now (retry_after attempts)) else none

-- Finish after Send; its error is only logged.
unfoldable pub settle : Env → Claimed → Outcome → List Notice → List Notice
unfolding finish next_attempt
settle env item (accepted message) rows =
    (finish env item.id item.claim_token message "" none rows).1
settle env item temporary rows =
    (finish env item.id item.claim_token "" "email delivery temporarily unavailable"
      (next_attempt env.now item.attempts) rows).1
settle env item permanent rows =
    (finish env item.id item.claim_token "" "email delivery failed" none rows).1

-- The loop over the claimed notices; the context may end before one of them.
unfoldable pub settle_all :
    (Claimed → Env)
    → (Claimed → Bool)
    → (Claimed → Outcome)
    → List Claimed
    → List Notice
    → List Notice
unfolding settle
settle_all envs over send [] rows = rows
settle_all envs over send (item ∷ rest) rows =
    let later = settle_all envs over send rest (settle (envs item) item (send item) rows) in
    if over item then rows else later

unfoldable pub settle_claimed :
    (Claimed → Env)
    → (Claimed → Bool)
    → (Claimed → Outcome)
    → Result NoticeError (List Claimed)
    → List Notice
    → List Notice
unfolding settle_all
settle_claimed envs over send (err e) rows = rows
settle_claimed envs over send (ok items) rows = settle_all envs over send items rows

-- Once
unfoldable pub once :
    Env → (Claimed → Env) → (Claimed → Bool) → (Claimed → Outcome) → List Notice → List Notice
unfolding claim settle_claimed
once env envs over send rows =
    let (r, rows') = claim env none 50 rows in settle_claimed envs over send r rows'
