-- ===== src/Remediation/Events.antt =====
-- remediationpolicy_controller.go, `reconcileEvent` and `processEvent`: from an event to the request to
-- the MCP server. What the code reads from the API, the server and the clocks is an argument, and what it
-- does outside the controller's own maps is a list of effects.
pub mod Runs
pub mod Once
pub mod PerObject
use dot_ai_controller.Prelude.{
  ℕ, ◌-◌, Bool, true, false, not, Option, none, some, List, [], ◌∷◌, ◌++◌, Text, text_eq, ltb,
  if◌then◌else◌, is_some,
}
use dot_ai_controller.Prelude.Map.{Map, lookup, insert, retain}
use dot_ai_controller.Remediation.Owner.{
  slash, Fetched, found, not_found, failed, Cluster, get_rate_limit_key,
}
use dot_ai_controller.Remediation.RateLimit.{
  RateState, Verdict, allowed, in_cooldown, over_limit, is_rate_limited,
}
use dot_ai_controller.Remediation.Cooldowns.{is_object_in_cooldown, set_object_cooldown}
use dot_ai_controller.Remediation.Policy.{
  Event, EventSelector, RemediationPolicy, matches_policy_with_selector, get_effective_mode,
}

pub record ReconcilerState : Type 0 where
  pub processed_events : Map Text ℕ
  pub rate : RateState
  pub object_cooldowns : Map Text ℕ

unfoldable pub get_event_key : Event → Text
get_event_key event = event.namespace ++ slash ∷ (event.name ++ slash ∷ event.resource_version)

-- The object of an event, fetched under its group and version: `none` is an API version that does not
-- parse.
unfoldable pub involved_object_exists : Option (Fetched (Unit {0})) → Bool
involved_object_exists none = true
involved_object_exists (some (found u)) = true
involved_object_exists (some not_found) = false
involved_object_exists (some failed) = true

unfoldable pub is_event_processed : Text → Map Text ℕ → Bool
is_event_processed key processed = is_some (lookup key processed)

unfoldable pub mark_event_processed : ℕ → Text → Map Text ℕ → Map Text ℕ
mark_event_processed now key processed = insert key now processed

-- `now.Sub(processedAt) > maxAge`
unfoldable pub cleanup_processed_events : ℕ → ℕ → Map Text ℕ → Map Text ℕ
cleanup_processed_events now max_age processed =
    retain (λ key processed_at. not (ltb max_age (now - processed_at))) processed

pub data Notification : Type 0 where
  start complete : Notification

pub data Reason : Type 0 where
  event_matched mcp_message_generation_failed mcp_auth_secret_error mcp_request_failed
        mcp_request_succeeded :
      Reason
  mcp_remediation_failed status_update_failed : Reason

-- A notification is sent only if the policy asks for it, and its errors are logged: here it is the call.
pub data Effect : Type 0 where
  recorded : Reason → Effect
  updated_policy_status : Bool → Bool → Effect
  updated_rate_limit_status : Effect
  sent_slack sent_google_chat : Notification → Effect
  requested : Text → Effect

pub data ProcessError : Type 0 where
  generation_failed auth_failed request_failed status_failed list_failed : ProcessError

-- What the calls of processEvent return for one policy: whether a request can be made, the token, the
-- answer of the server with its `success`, and whether a status with these flags can be written.
pub record Services : Type 0 where
  pub generates : Bool
  pub authorizes : Bool
  pub send_mcp_request : Option Bool
  pub update_policy_status : Bool → Bool → Bool

notify : Notification → List Effect
notify n = sent_slack n ∷ sent_google_chat n ∷ []

abbrev reason_of : Bool → Reason
reason_of true = mcp_request_succeeded
reason_of false = mcp_remediation_failed

after_response : Services → Option Bool → Option ProcessError × List Effect
unfolding notify
after_response services none =
    (some request_failed, recorded mcp_request_failed ∷ updated_policy_status false false ∷ [])
after_response services (some success) =
    if services.update_policy_status success true
    then (none, recorded (reason_of success) ∷ updated_policy_status success true ∷ notify complete)
    else (
      some status_failed,
      recorded (reason_of success)
          ∷ updated_policy_status success true
          ∷ recorded status_update_failed
          ∷ [],
    )

with_request : Text → Option ProcessError × List Effect → Option ProcessError × List Effect
unfolding notify
with_request mode (error, effects) =
    (error, recorded event_matched ∷ (notify start ++ requested mode ∷ effects))

-- The error and the effects, in order. The request carries the effective mode.
unfoldable pub process_event :
    Services → RemediationPolicy → EventSelector → Option ProcessError × List Effect
unfolding after_response with_request get_effective_mode
process_event services policy selector =
    if services.generates
    then if services.authorizes
      then with_request (get_effective_mode selector policy)
          (after_response services services.send_mcp_request)
      else (
        some auth_failed,
        recorded event_matched ∷ (notify start ++ recorded mcp_auth_secret_error ∷ []),
      )
    else (
      some generation_failed,
      recorded event_matched
          ∷ recorded mcp_message_generation_failed
          ∷ updated_policy_status false true
          ∷ [],
    )

-- What one reconcile meets. The instants are those that its calls read, in their order; the cluster
-- answers all reads of owners alike.
pub record World : Type 0 where
  pub startup_time : Option ℕ
  pub object : Option (Fetched (Unit {0}))
  pub list_policies : Option (List RemediationPolicy)
  pub match_string : Text → Text → Option Bool
  pub cluster : Cluster
  pub services : Services
  pub asked_at : ℕ
  pub limited_at : ℕ
  pub marked_at : ℕ
  pub set_at : ℕ

pub record Reconciled : Type 0 where
  pub error : Option ProcessError
  pub effects : List Effect
  pub state : ReconcilerState

abbrev unchanged : ReconcilerState → Reconciled
unchanged st = record { error = none; effects = []; state = st }

abbrev limited : ReconcilerState → Reconciled
limited st = record { error = none; effects = updated_rate_limit_status ∷ []; state = st }

unfoldable pub object_key : World → Event → RemediationPolicy → Text
object_key w event policy =
    get_rate_limit_key w.cluster policy.namespace policy.name event.involved_object

pub process : World → Event → RemediationPolicy → EventSelector → ReconcilerState → Reconciled
process w event policy selector st =
    let (error, effects) = process_event w.services policy selector in
    record {
      error = error;
      effects = effects;
      state = record {
        processed_events =
            mark_event_processed w.marked_at (get_event_key event) st.processed_events;
        rate = st.rate;
        object_cooldowns =
            set_object_cooldown w.set_at (object_key w event policy) st.object_cooldowns;
      };
    }

after_limit :
    World
    → Event
    → RemediationPolicy
    → EventSelector
    → ReconcilerState
    → Verdict × RateState
    → Reconciled
unfolding process
after_limit w event policy selector st (allowed, rate) =
    process w event policy selector (record st { rate = rate })
after_limit w event policy selector st (in_cooldown left, rate) =
    limited (record st { rate = rate })
after_limit w event policy selector st (over_limit n m, rate) = limited (record st { rate = rate })

after_cooldown :
    World → Event → RemediationPolicy → EventSelector → ReconcilerState → Option ℕ → Reconciled
unfolding after_limit
after_cooldown w event policy selector st (some left) = limited st
after_cooldown w event policy selector st none = after_limit w event policy selector st (
    is_rate_limited policy.persist w.limited_at (object_key w event policy) policy.rate_limiting
      st.rate)

on_match :
    World
    → Event
    → RemediationPolicy
    → ReconcilerState
    → Option EventSelector
    → Reconciled
    → Reconciled
unfolding after_cooldown
on_match w event policy st none next = next
on_match w event policy st (some selector) next =
    after_cooldown w event policy selector st
      (is_object_in_cooldown w.asked_at (object_key w event policy) st.object_cooldowns)

-- The first policy that matches is the only one that is handled.
unfoldable pub try_policies : World → Event → ReconcilerState → List RemediationPolicy → Reconciled
unfolding on_match
try_policies w event st [] = unchanged st
try_policies w event st (policy ∷ policies) =
    let next = try_policies w event st policies in
    on_match w event policy st (matches_policy_with_selector w.match_string event policy) next

pub with_policies : World → Event → ReconcilerState → Option (List RemediationPolicy) → Reconciled
unfolding try_policies
with_policies w event st none = record { error = some list_failed; effects = []; state = st }
with_policies w event st (some policies) = try_policies w event st policies

-- The last timestamp of an event, or else the time of its series.
abbrev pub time_of : Event → Option ℕ
time_of event = if is_some event.last_timestamp then event.last_timestamp else event.event_time

abbrev pub is_earlier : Option ℕ → Option ℕ → Bool
is_earlier (some t) (some startup) = ltb t startup
is_earlier (some t) none = false
is_earlier none startup = false

unfoldable pub reconcile_event : World → Event → ReconcilerState → Reconciled
unfolding with_policies involved_object_exists is_event_processed get_event_key
reconcile_event w event st =
    if is_earlier (time_of event) w.startup_time
    then unchanged st
    else if not (involved_object_exists w.object)
    then unchanged st
    else if is_event_processed (get_event_key event) st.processed_events
    then unchanged st
    else with_policies w event st w.list_policies
