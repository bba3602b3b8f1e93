-- ===== src/Platform/Email.antt =====
-- platform/email/sender.go: a message, and SendWithRetry over what the mail provider answers.
pub mod Bounded
use shearix_platform.Shared.{
  ℕ, zero, suc, ◌+◌, ◌*◌, ◌%◌, ◌^◌, String, Bool, true, false, ◌||◌, List, [], ◌∷◌, if◌then◌else◌,
  ℤ, pos, ltb_ℤ,
}
use shearix_platform.GoTime.{of_u64}

pub record Message : Type 0 where
  pub to : String
  pub subject : String
  pub text : String
  pub template : String
  pub idempotency_key : String

-- What one call of Send answers: a temporary error is one that IsTemporary knows.
pub data Outcome : Type 0 where
  accepted temporary permanent : Outcome

-- The provider and the request's context, at each attempt of one call: what Send answers, whether
-- the context is done after it and while it waits, and the number rand.Int63n takes up to a bound.
pub record Delivery : Type 0 where
  pub outcome : ℕ → Outcome
  pub done_after : ℕ → Bool
  pub done_waiting : ℕ → Bool
  pub jitter : ℕ → ℤ → ℤ

-- What SendWithRetry returns.
pub data Sent : Type 0 where
  delivered refused gave_up cancelled : Sent

-- The returned value, the number of calls of Send, and the waits between them.
pub record Report : Type 0 where
  pub result : Sent
  pub sends : ℕ
  pub waits : List ℤ

-- retryBaseDelay, retryMaxDelay
abbrev pub retry_base_delay : ℕ
retry_base_delay = 200000000

abbrev pub retry_max_delay : ℤ
retry_max_delay = pos 2000000000

-- The delay, or the maximum in place of a delay that is larger or not positive.
unfoldable pub capped : ℤ → ℤ
capped d = if ltb_ℤ retry_max_delay d || ltb_ℤ d (pos 1) then retry_max_delay else d

-- sleepBackoff: the bound of the wait after an attempt. The shift of an int64 loses its high bits.
unfoldable pub backoff : ℕ → ℤ
unfolding of_u64 capped
backoff attempt = capped (of_u64 ((retry_base_delay * 2 ^ attempt) % 2 ^ 64))

abbrev pub stopped : Sent → Report
stopped r = record { result = r; sends = 1; waits = [] }

unfoldable pub waited : ℤ → Report → Report
waited w r = record { result = r.result; sends = suc r.sends; waits = w ∷ r.waits }

-- After a temporary error: the context, the last attempt, the context while it waits, and the next
-- attempts.
unfoldable pub retry : Bool → Bool → Bool → ℤ → Report → Report
unfolding waited
retry true last stop wait next = stopped cancelled
retry false true stop wait next = stopped gave_up
retry false false true wait next = stopped cancelled
retry false false false wait next = waited wait next

unfoldable pub attempted : Delivery → ℕ → Outcome → Bool → Report → Report
unfolding retry backoff
attempted d attempt accepted last next = stopped delivered
attempted d attempt permanent last next = stopped refused
attempted d attempt temporary last next =
    retry (d.done_after attempt) last (d.done_waiting attempt) (d.jitter attempt (backoff attempt))
      next

-- The loop from an attempt on, with the number of attempts after it.
unfoldable pub send_from : Delivery → ℕ → ℕ → Report
unfolding attempted
send_from d attempt zero = attempted d attempt (d.outcome attempt) true (stopped gave_up)
send_from d attempt (suc more) =
    attempted d attempt (d.outcome attempt) false (send_from d (suc attempt) more)

-- SendWithRetry
unfoldable pub send_with_retry : Delivery → ℕ → Report
unfolding send_from
send_with_retry d zero = send_from d 0 0
send_with_retry d (suc more) = send_from d 0 more
