-- ===== src/Remediation/PolicyStatus.antt =====
-- remediationpolicy_controller.go, `updatePolicyStatus` and `initializePolicyStatus`, and
-- remediationpolicy_ratelimit.go, `updateRateLimitStatus`: the statistics of a policy. The int64 counters
-- are kept as bit patterns.
use dot_ai_controller.Prelude.{
  ℕ, ◌+◌, ◌%◌, ◌^◌, ◌≡◌, refl, Bool, true, false, Option, none, some, List, [], ◌∷◌, Text, codes,
  if◌then◌else◌, ltb, arith,
}
use dot_ai_controller.Status.{Condition, ready, put_condition}
use dot_ai_controller.Status.Update.{
  StatusAttempt, StatusResult, StatusReply, AllChanged, update_status, update_status-once,
}

pub record PolicyStatus : Type 0 where
  pub total_events_processed : ℕ
  pub successful_remediations : ℕ
  pub failed_remediations : ℕ
  pub total_mcp_messages_generated : ℕ
  pub rate_limited_events : ℕ
  pub last_processed_event : Option ℕ
  pub last_mcp_message_generated : Option ℕ
  pub last_rate_limited_event : Option ℕ
  pub conditions : List Condition

abbrev pub next64 : ℕ → ℕ
next64 n = (n + 1) % 2 ^ 64

-- fmt.Sprintf with the formats of the code: of the events and the messages, or of the events alone; and of
-- the number of selectors.
pub record PolicyMessages : Type 0 where
  pub events_and_messages : ℕ → ℕ → Text
  pub events : ℕ → Text
  pub selectors : ℕ → Text

count_remediation : Bool → PolicyStatus → PolicyStatus
count_remediation true s = record s {
  total_events_processed = next64 s.total_events_processed;
  successful_remediations = next64 s.successful_remediations;
}
count_remediation false s = record s {
  total_events_processed = next64 s.total_events_processed;
  failed_remediations = next64 s.failed_remediations;
}

count_message : Bool → ℕ → PolicyStatus → PolicyStatus
count_message false now s = s
count_message true now s = record s {
  total_mcp_messages_generated = next64 s.total_mcp_messages_generated;
  last_mcp_message_generated = some now;
}

-- A counter whose top bit is set is negative.
abbrev pub is_positive : ℕ → Bool
is_positive n = if ltb 0 n then ltb n (2 ^ 63) else false

put_processed : PolicyMessages → ℕ → PolicyStatus → PolicyStatus
unfolding put_condition
put_processed messages now s = record s {
  last_processed_event = some now;
  conditions =
      put_condition
        (record {
          type = ready;
          status = true;
          last_transition_time = now;
          reason = codes "EventProcessed";
          message =
              if is_positive s.total_mcp_messages_generated
              then messages.events_and_messages s.total_events_processed
                  s.total_mcp_messages_generated
              else messages.events s.total_events_processed;
        })
        s.conditions;
}

-- What an attempt of updatePolicyStatus makes of the fresh copy.
unfoldable pub processed : PolicyMessages → Bool → Bool → ℕ → PolicyStatus → PolicyStatus
unfolding count_remediation count_message put_processed
processed messages success generated now s =
    put_processed messages now (count_message generated now (count_remediation success s))

-- At each attempt, the time.
unfoldable pub update_policy_status :
    PolicyMessages
    → Bool
    → Bool
    → (ℕ → ℕ)
    → (ℕ → StatusAttempt PolicyStatus)
    → StatusResult PolicyStatus
unfolding update_status processed
update_policy_status messages success generated clock world =
    update_status (λ n. processed messages success generated (clock n)) world

-- The status of a policy with so many selectors at the start.
unfoldable pub initialize_policy_status : PolicyMessages → ℕ → ℕ → PolicyStatus → PolicyStatus
initialize_policy_status messages selectors now s = record {
  total_events_processed = 0;
  successful_remediations = 0;
  failed_remediations = 0;
  total_mcp_messages_generated = 0;
  rate_limited_events = 0;
  last_processed_event = none;
  last_mcp_message_generated = none;
  last_rate_limited_event = none;
  conditions =
      record {
        type = ready;
        status = true;
        last_transition_time = now;
        reason = codes "PolicyInitialized";
        message = messages.selectors selectors;
      }
      ∷ [];
}

unfoldable pub update_rate_limit_status : ℕ → PolicyStatus → PolicyStatus
update_rate_limit_status now s = record s {
  rate_limited_events = next64 s.rate_limited_events;
  last_rate_limited_event = some now;
}

-- The events processed are the successes and the failures.
abbrev pub IsBalanced : PolicyStatus → Type 0
IsBalanced s =
    s.total_events_processed ≡ (s.successful_remediations + s.failed_remediations) % 2 ^ 64

-- Every copy that was sent is.
abbrev pub AllBalanced : List (PolicyStatus × StatusReply) → Type 0
AllBalanced [] = Unit
AllBalanced ((s, r) ∷ sent) = IsBalanced s × AllBalanced sent

processed-IsBalanced :
    (messages : PolicyMessages) (success generated : Bool) (now : ℕ) (s : PolicyStatus)
    → IsBalanced s
    → IsBalanced (processed messages success generated now s)
unfolding processed count_remediation count_message put_processed
processed-IsBalanced messages true true now s b = omega (arith, b)
processed-IsBalanced messages true false now s b = omega (arith, b)
processed-IsBalanced messages false true now s b = omega (arith, b)
processed-IsBalanced messages false false now s b = omega (arith, b)

AllChanged-AllBalanced :
    (messages : PolicyMessages) (success generated : Bool) (clock : ℕ → ℕ)
    (world : ℕ → StatusAttempt PolicyStatus) (sent : List (PolicyStatus × StatusReply))
    → ((n : ℕ) (s : PolicyStatus) → (world n).fresh ≡ some s → IsBalanced s)
    → AllChanged (λ n. processed messages success generated (clock n)) world sent
    → AllBalanced sent
AllChanged-AllBalanced messages success generated clock world [] b c = tt
AllChanged-AllBalanced messages success generated clock world ((s, r) ∷ sent) b
      ((n, old, e, f), c) =
    (
      rw f (processed-IsBalanced messages success generated (clock n) old (b n old e)),
      AllChanged-AllBalanced messages success generated clock world sent b c,
    )

-- The statistics stay balanced, to the wrap-around of int64: if in every copy that is fetched the events
-- processed are the successes and the failures, they are in every copy that updatePolicyStatus sends; and
-- a policy starts so.
pub update_policy_status-IsBalanced :
    (messages : PolicyMessages) (success generated : Bool) (clock : ℕ → ℕ)
    (world : ℕ → StatusAttempt PolicyStatus) (selectors now : ℕ) (new : PolicyStatus)
    → ((n : ℕ) (s : PolicyStatus) → (world n).fresh ≡ some s → IsBalanced s)
    → AllBalanced (update_policy_status messages success generated clock world).1
      × IsBalanced (initialize_policy_status messages selectors now new)
unfolding update_policy_status initialize_policy_status
update_policy_status-IsBalanced messages success generated clock world selectors now new b = (
  AllChanged-AllBalanced messages success generated clock world _ b
      (update_status-once (λ n. processed messages success generated (clock n)) world).2,
  refl,
)
