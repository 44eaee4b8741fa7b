-- ===== src/Tests/Retries.antt =====
-- Runs of the loops with retries: a first attempt that fails, and one that succeeds.
use dot_ai_controller.Prelude.{
  ℕ, zero, suc, ◌+◌, ◌≤◌, ◌<◌, ◌≡◌, refl, ap, true, false, Option, none, some, [], codes, length,
  arith,
}
use dot_ai_controller.Status.Update.{
  StatusAttempt, accepted, conflict, update_status, accepted_count, success_count, AllChanged,
  update_status-once,
}
use dot_ai_controller.Remediation.PolicyStatus.{
  PolicyStatus, PolicyMessages, IsBalanced, AllBalanced, update_policy_status,
  initialize_policy_status, update_policy_status-IsBalanced,
}
use dot_ai_controller.ResourceSync.Client.{
  SyncResponse, SyncError, send_failed, exhausted, reply, failure, Attempt, send_with_retry,
}
use dot_ai_controller.ResourceSync.Client.Retry.{
  IsRetried, send_with_retry-first, send_with_retry-exhausted,
}

abbrev done : SyncResponse
done = record { success = true; counts = none; error = none }

abbrev refused : Attempt
refused = record {
  cancelled_in_wait = false;
  outcome = failure none (send_failed (codes "refused"));
  cancelled_after = false;
}

-- The first attempt fails, the others succeed.
abbrev world : ℕ → Attempt
world zero = refused
world (suc n) = record refused { outcome = reply done }

refused-IsRetried : (i : ℕ) → i < 1 → IsRetried (world i)
refused-IsRetried zero lt = record { waited = refl; running = refl; failed = tt }
refused-IsRetried (suc i) lt = absurd (omega arith)

send_with_retry-first_example : send_with_retry 3 world ≡ reply done
send_with_retry-first_example =
    send_with_retry-first 3 world 1 done (omega arith) refused-IsRetried refl refl refl

send_with_retry-exhausted_example :
    (e : SyncError) × (send_with_retry 3 (λ n. refused) ≡ failure none (exhausted 3 e))
send_with_retry-exhausted_example =
    send_with_retry-exhausted 3 (λ n. refused)
      (λ i lt. record { waited = refl; running = refl; failed = tt })

-- The first write meets a conflict, the second is accepted.
abbrev statuses : ℕ → StatusAttempt ℕ
statuses zero = record { cancelled_in_wait = false; fresh = some 5; answer = conflict }
statuses (suc n) = record { cancelled_in_wait = false; fresh = some 6; answer = accepted }

update_status-once_example :
    (accepted_count (update_status (λ n s. s + 1) statuses).1
      ≡ success_count (update_status (λ n s. s + 1) statuses).0)
    × (length (update_status (λ n s. s + 1) statuses).1 ≤ 4)
    × AllChanged (λ n s. s + 1) statuses (update_status (λ n s. s + 1) statuses).1
update_status-once_example = update_status-once (λ n s. s + 1) statuses

abbrev counted : PolicyStatus
counted = record {
  total_events_processed = 3;
  successful_remediations = 2;
  failed_remediations = 1;
  total_mcp_messages_generated = 3;
  rate_limited_events = 0;
  last_processed_event = none;
  last_mcp_message_generated = none;
  last_rate_limited_event = none;
  conditions = [];
}

abbrev policies : ℕ → StatusAttempt PolicyStatus
policies n = record { cancelled_in_wait = false; fresh = some counted; answer = accepted }

abbrev messages : PolicyMessages
messages = record {
  events_and_messages = λ n m. codes "both";
  events = λ n. codes "events";
  selectors = λ n. codes "new";
}

counted-IsBalanced : (n : ℕ) (s : PolicyStatus) → some counted ≡ some s → IsBalanced s
counted-IsBalanced n s e = omega (arith, ap events_of e, ap successes_of e, ap failures_of e)
  where
    events_of : Option PolicyStatus → ℕ
    events_of none = 0
    events_of (some t) = t.total_events_processed

    successes_of : Option PolicyStatus → ℕ
    successes_of none = 0
    successes_of (some t) = t.successful_remediations

    failures_of : Option PolicyStatus → ℕ
    failures_of none = 0
    failures_of (some t) = t.failed_remediations

update_policy_status-IsBalanced_example :
    AllBalanced (update_policy_status messages true true (λ n. n) policies).1
    × IsBalanced (initialize_policy_status messages 2 7 counted)
update_policy_status-IsBalanced_example =
    update_policy_status-IsBalanced messages true true (λ n. n) policies 2 7 counted
      counted-IsBalanced
