-- ===== src/ResourceSync/Client/Retry.antt =====
-- What `send_with_retry` returns.
use dot_ai_controller.Prelude.{
  ℕ, zero, suc, ◌+◌, ◌≤◌, ◌<◌, ◌≡◌, refl, ◌⊎◌, inl, inr, Bool, true, false, none, arith,
}
use dot_ai_controller.ResourceSync.Client.{
  SyncResponse, SyncError, nil_error, exhausted, Reply, reply, failure, Attempt, Round, return,
  retry, after_send, round, mcp_returned, get_error_message, attempts_from, send_with_retry,
  is_partial,
}

after_send-reply :
    (done : Bool) (o : Reply) {r : SyncResponse}
    → after_send done o ≡ return (reply r)
    → (o ≡ reply r) × (r.success ≡ true)
unfolding after_send
after_send-reply done (failure s e) h = ground arith
after_send-reply done (reply s) h = ground arith

round-reply :
    (n : ℕ) (a : Attempt) {r : SyncResponse}
    → round n a ≡ return (reply r)
    → (a.outcome ≡ reply r) × (r.success ≡ true)
unfolding round
round-reply zero a h = after_send-reply a.cancelled_after a.outcome h
round-reply (suc n) a h = ground (arith, after_send-reply a.cancelled_after a.outcome)

Round-cases : (o : Round) → ((r : Reply) × (o ≡ return r)) ⊎ ((e : SyncError) × (o ≡ retry e))
Round-cases (return r) = inl (r, refl)
Round-cases (retry e) = inr (e, refl)

attempts_from-reply :
    (m : ℕ) (world : ℕ → Attempt) (n left : ℕ) (e : SyncError) {r : SyncResponse}
    → attempts_from m world n left e ≡ reply r
    → (k : ℕ) × (n ≤ k) × (k < n + left) × ((world k).outcome ≡ reply r) × (r.success ≡ true)
unfolding attempts_from
attempts_from-reply m world n zero e h = ground arith
attempts_from-reply m world n (suc left) e {r} h = elim (Round-cases (round n (world n))) [
  | inl (x, p) ↦
      let got = round-reply n (world n) {r = r} (ground arith) in
      (n, omega arith, omega arith, got.0, got.1)
  | inr (last, p) ↦
      let (k, lo, hi, sent, good) =
        attempts_from-reply m world (suc n) left last {r = r} (ground arith) in
      (k, omega arith, omega arith, sent, good)
]

-- A response that comes back without an error is what one of the attempts returned, and it reports
-- success: a response that reports failure always comes back with an error.
pub send_with_retry-success :
    (max_retries : ℕ) (world : ℕ → Attempt) {r : SyncResponse}
    → send_with_retry max_retries world ≡ reply r
    → (k : ℕ) × (k ≤ max_retries) × ((world k).outcome ≡ reply r) × (r.success ≡ true)
unfolding send_with_retry
send_with_retry-success m world h =
    let (k, lo, hi, sent, good) = attempts_from-reply m world 0 (suc m) nil_error h in
    (k, omega arith, sent, good)

-- A failed send, or a response that reports failure and no details.
abbrev pub IsFailure : Reply → Type 0
IsFailure (failure r e) = Unit
IsFailure (reply r) = (r.success ≡ false) × (is_partial r ≡ false)

-- An attempt after which the loop goes on.
pub record IsRetried (a : Attempt) : Type 0 where
  pub waited : a.cancelled_in_wait ≡ false
  pub running : a.cancelled_after ≡ false
  pub failed : IsFailure a.outcome

after_send-retry : (o : Reply) → IsFailure o → (e : SyncError) × (after_send false o ≡ retry e)
unfolding after_send
after_send-retry (failure r e) f = (e, refl)
after_send-retry (reply r) f = (mcp_returned (get_error_message r), ground arith)

round-retry : (n : ℕ) (a : Attempt) → IsRetried a → (e : SyncError) × (round n a ≡ retry e)
unfolding round
round-retry zero a f = let (e, p) = after_send-retry a.outcome f.failed in (e, rw f.running p)
round-retry (suc n) a f =
    let (e, p) = after_send-retry a.outcome f.failed in (e, rw (f.waited, f.running) p)

round-success :
    (n : ℕ) (a : Attempt) (r : SyncResponse)
    → a.cancelled_in_wait ≡ false
    → a.outcome ≡ reply r
    → r.success ≡ true
    → round n a ≡ return (reply r)
unfolding round after_send
round-success zero a r w o s = ground arith
round-success (suc n) a r w o s = ground arith

attempts_from-first :
    (m : ℕ) (world : ℕ → Attempt) (d n left : ℕ) (last : SyncError) (r : SyncResponse)
    → d < left
    → ((i : ℕ) → i < n + d → IsRetried (world i))
    → (world (n + d)).cancelled_in_wait ≡ false
    → (world (n + d)).outcome ≡ reply r
    → r.success ≡ true
    → attempts_from m world n left last ≡ reply r
unfolding attempts_from
attempts_from-first m world d n zero last r lt f w o s = absurd (omega arith)
attempts_from-first m world zero n (suc left) last r lt f w o s =
    let e : n + zero ≡ n = omega arith in
    rw (round-success n (world n) r (rw e at w) (rw e at o) s, attempts_from) refl
attempts_from-first m world (suc d) n (suc left) last r lt f w o s =
    let e : n + suc d ≡ suc n + d = omega arith in
    let (x, p) = round-retry n (world n) (f n (omega arith)) in
    rw (p, attempts_from)
      (attempts_from-first m world d (suc n) left x r (omega arith) (λ i lt. f i (omega arith))
        (rw e at w) (rw e at o) s)

-- The first attempt that succeeds ends the loop: if the attempts before the `k`-th fail and are not
-- cut short, the `k`-th is within the retries, its wait is not cancelled and it returns a response
-- that reports success, that response is the result.
pub send_with_retry-first :
    (max_retries : ℕ) (world : ℕ → Attempt) (k : ℕ) (r : SyncResponse)
    → k ≤ max_retries
    → ((i : ℕ) → i < k → IsRetried (world i))
    → (world k).cancelled_in_wait ≡ false
    → (world k).outcome ≡ reply r
    → r.success ≡ true
    → send_with_retry max_retries world ≡ reply r
unfolding send_with_retry
send_with_retry-first m world k r le f w o s =
    let e : k ≡ 0 + k = omega arith in
    attempts_from-first m world k 0 (suc m) nil_error r (omega arith) (λ i lt. f i (omega arith))
      (rw e at w) (rw e at o) s

attempts_from-exhausted :
    (m : ℕ) (world : ℕ → Attempt) (n left : ℕ) (last : SyncError)
    → ((i : ℕ) → i < n + left → IsRetried (world i))
    → (e : SyncError) × (attempts_from m world n left last ≡ failure none (exhausted m e))
unfolding attempts_from
attempts_from-exhausted m world n zero last f = (last, refl)
attempts_from-exhausted m world n (suc left) last f =
    let (x, p) = round-retry n (world n) (f n (omega arith)) in
    let (y, q) = attempts_from-exhausted m world (suc n) left x (λ i lt. f i (omega arith)) in
    (y, rw (p, attempts_from) q)

-- If every one of the `max_retries + 1` attempts fails and none is cut short, the loop gives up with
-- the error of an exhausted retry and no response.
pub send_with_retry-exhausted :
    (max_retries : ℕ) (world : ℕ → Attempt)
    → ((i : ℕ) → i < suc max_retries → IsRetried (world i))
    → (e : SyncError) × (send_with_retry max_retries world ≡ failure none (exhausted max_retries e))
unfolding send_with_retry
send_with_retry-exhausted m world f =
    attempts_from-exhausted m world 0 (suc m) nil_error (λ i lt. f i (omega arith))
