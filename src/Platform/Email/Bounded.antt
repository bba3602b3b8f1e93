-- ===== src/Platform/Email/Bounded.antt =====
-- platform/email/sender.go: how long SendWithRetry tries and waits.
use shearix_platform.Shared.{
  ℕ, zero, ◌-◌, suc, ◌+◌, ◌*◌, ◌%◌, ◌^◌, ◌≤◌, Bool, true, false, ◌≡◌, refl, ℤ, pos, ◌≤ℤ◌, length,
  arith, All, ap, subst,
}
use shearix_platform.GoTime.{of_u64}
use shearix_platform.Platform.Email.{
  Delivery, Outcome, accepted, temporary, permanent, Report, stopped, waited, retry, attempted,
  send_from, send_with_retry, backoff, capped, retry_max_delay, retry_base_delay, gave_up,
  delivered, cancelled, refused, Sent,
}

-- A wait of at least nothing and at most retryMaxDelay.
abbrev pub IsShort : ℤ → Type 0
IsShort w = (pos 0 ≤ℤ w) × (w ≤ℤ retry_max_delay)

capped-IsShort : (d : ℤ) → IsShort (capped d)
unfolding capped
capped-IsShort d = ground arith

backoff-IsShort : (attempt : ℕ) → IsShort (backoff attempt)
unfolding backoff
backoff-IsShort attempt = capped-IsShort (of_u64 ((retry_base_delay * 2 ^ attempt) % 2 ^ 64))

-- rand.Int63n(n+1)
abbrev pub IsFair : Delivery → Type 0
IsFair d =
    (attempt : ℕ) (n : ℤ) → pos 0 ≤ℤ n → (pos 0 ≤ℤ d.jitter attempt n) × (d.jitter attempt n ≤ℤ n)

-- A report of tries from an attempt on, at most `more` after the first.
pub record IsBounded (d : Delivery) (attempt more : ℕ) (r : Report) : Type 0 where
  pub waits_between : suc (length r.waits) ≡ r.sends
  pub few : r.sends ≤ suc more
  pub short : All IsShort r.waits
  pub told : r.result ≡ delivered → d.outcome (attempt + length r.waits) ≡ accepted
  pub tried_all : r.result ≡ gave_up → r.sends ≡ suc more

at_attempt : (d : Delivery) (a b : ℕ) → a ≡ b → d.outcome a ≡ accepted → d.outcome b ≡ accepted
at_attempt d a b e h = subst (λ k. d.outcome k ≡ accepted) e h

stopped-IsBounded :
    (d : Delivery) (attempt more : ℕ) (r : Sent)
    → (r ≡ delivered → d.outcome attempt ≡ accepted)
    → (r ≡ gave_up → more ≡ 0)
    → IsBounded d attempt more (stopped r)
stopped-IsBounded d attempt more r told all = record {
  waits_between = refl;
  few = omega arith;
  short = tt;
  told = λ e. at_attempt d attempt _ (omega arith) (told e);
  tried_all = λ e. ap suc (omega (arith, all e));
}

waited-IsBounded :
    (d : Delivery) (attempt more : ℕ) (w : ℤ) (r : Report)
    → IsShort w
    → IsBounded d (suc attempt) more r
    → IsBounded d attempt (suc more) (waited w r)
unfolding waited
waited-IsBounded d attempt more w r h b = record {
  waits_between = ap suc b.waits_between;
  few = omega (arith, b.few);
  short = (h, b.short);
  told = λ e. at_attempt d _ _ (omega arith) (b.told e);
  tried_all = λ e. ap suc (b.tried_all e);
}

-- The branches after a temporary error.
retry-IsBounded :
    (d : Delivery) (attempt more : ℕ) (over last stop : Bool) (wait : ℤ) (next : Report)
    → IsShort wait
    → (last ≡ true → more ≡ 0)
    → (last ≡ false → IsBounded d attempt more (waited wait next))
    → IsBounded d attempt more (retry over last stop wait next)
unfolding retry
retry-IsBounded d attempt more true last stop wait next h final on =
    stopped-IsBounded d attempt more cancelled (λ e. cc) (λ e. cc)
retry-IsBounded d attempt more false true stop wait next h final on =
    stopped-IsBounded d attempt more gave_up (λ e. cc) (λ e. final refl)
retry-IsBounded d attempt more false false true wait next h final on =
    stopped-IsBounded d attempt more cancelled (λ e. cc) (λ e. cc)
retry-IsBounded d attempt more false false false wait next h final on = on refl

attempted-IsBounded :
    (d : Delivery) (attempt more : ℕ) (o : Outcome) (last : Bool) (next : Report)
    → IsFair d
    → d.outcome attempt ≡ o
    → (last ≡ true → more ≡ 0)
    → (last ≡ false → (wait : ℤ) → IsShort wait → IsBounded d attempt more (waited wait next))
    → IsBounded d attempt more (attempted d attempt o last next)
unfolding attempted
attempted-IsBounded d attempt more accepted last next fair o final on =
    stopped-IsBounded d attempt more delivered (λ e. o) (λ e. cc)
attempted-IsBounded d attempt more permanent last next fair o final on =
    stopped-IsBounded d attempt more refused (λ e. cc) (λ e. cc)
attempted-IsBounded d attempt more temporary last next fair o final on =
    let (low, high) = backoff-IsShort attempt in
    let (from, to) = fair attempt (backoff attempt) low in
    let short : IsShort (d.jitter attempt (backoff attempt)) = (from, omega (arith, to, high)) in
    retry-IsBounded d attempt more (d.done_after attempt) last (d.done_waiting attempt) _ next short
      final (λ e. on e _ short)

send_from-IsBounded :
    (d : Delivery)
    → IsFair d
    → (attempt more : ℕ) → IsBounded d attempt more (send_from d attempt more)
unfolding send_from
send_from-IsBounded d fair attempt zero =
    attempted-IsBounded d attempt 0 (d.outcome attempt) true _ fair refl (λ e. refl) (λ e. cc)
send_from-IsBounded d fair attempt (suc more) =
    attempted-IsBounded d attempt (suc more) (d.outcome attempt) false _ fair refl (λ e. cc)
      (λ e w h.
        waited-IsBounded d attempt more w _ h (send_from-IsBounded d fair (suc attempt) more))

-- SendWithRetry sends at least once and at most the given number of times (once for none), waits
-- between two sends and at most two seconds each time, reports a delivery only if its last send was
-- accepted, and reports the provider's temporary error only after all the sends it may make.
pub send_with_retry-IsBounded :
    (d : Delivery) → IsFair d → (n : ℕ) → IsBounded d 0 (n - 1) (send_with_retry d n)
unfolding send_with_retry
send_with_retry-IsBounded d fair zero = send_from-IsBounded d fair 0 0
send_with_retry-IsBounded d fair (suc more) =
    subst (λ k. IsBounded d 0 k (send_from d 0 more)) (omega arith)
      (send_from-IsBounded d fair 0 more)
