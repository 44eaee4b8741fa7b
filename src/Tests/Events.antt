-- ===== src/Tests/Events.antt =====
-- Runs of the handling of an event: a policy that selects every event of a pod, and a server that fails.
use dot_ai_controller.Prelude.{
  ◌≡◌, ◌⊎◌, refl, inl, inr, true, none, some, List, [], ◌∷◌, codes, text_dec, arith, ℕ_discrete,
}
use dot_ai_controller.Prelude.Map.{lookup}
use dot_ai_controller.Remediation.Owner.{ObjectReference, not_found, found}
use dot_ai_controller.Remediation.RateLimit.{is_rate_limited}
use dot_ai_controller.Remediation.Policy.{
  Event, EventSelector, RemediationPolicy, matches_selector, matches_policy_with_selector,
}
use dot_ai_controller.Remediation.Events.{
  World, ReconcilerState, reconcile_event, object_key, process_event, updated_rate_limit_status,
}
use dot_ai_controller.Remediation.Cooldowns.{is_object_in_cooldown}
use dot_ai_controller.Remediation.Events.Runs.{run_events}
use dot_ai_controller.Remediation.Events.Once.{reconcile_event-once}
use dot_ai_controller.Remediation.Events.PerObject.{reconcile_event-one_per_object}

abbrev web : ObjectReference
web = record { kind = codes "Deployment"; namespace = codes "d"; name = codes "web" }

abbrev first : Event
first = record {
  namespace = codes "d";
  name = codes "e1";
  resource_version = codes "1";
  type = codes "Warning";
  reason = codes "Failed";
  message = codes "pull";
  involved_object = web;
  last_timestamp = some 9;
  event_time = none;
}

abbrev second : Event
second = record first { name = codes "e2"; reason = codes "BackOff" }

abbrev selector : EventSelector
selector = record {
  type = codes "Warning";
  reason = [];
  involved_object_kind = [];
  namespace = [];
  message = [];
  mode = codes "automatic";
  max_risk_level = [];
}

abbrev policy : RemediationPolicy
policy = record {
  namespace = codes "n";
  name = codes "p";
  event_selectors = selector ∷ [];
  mode = [];
  max_risk_level = [];
  rate_limiting = record { events_per_minute = 0; cooldown_minutes = 0 };
  persist = none;
}

abbrev world : World
world = record {
  startup_time = some 5;
  object = some (found tt);
  list_policies = some (policy ∷ []);
  match_string = λ pattern text. none;
  cluster = record { get_pod = λ ns name. not_found; get_job = λ ns name. not_found };
  services = record {
    generates = true;
    authorizes = true;
    send_mcp_request = none;
    update_policy_status = λ a b. true;
  };
  asked_at = 10;
  limited_at = 11;
  marked_at = 12;
  set_at = 13;
}

abbrev later : World
later = record world { asked_at = 100 }

abbrev start : ReconcilerState
start = record {
  processed_events = [];
  rate = record { tracking = []; cooldowns = []; dirty = [] };
  object_cooldowns = [];
}

abbrev db : Event
db = record second { involved_object = record web { name = codes "db" } }

-- An event of another object is handled between.
abbrev between : List (World × Event)
between = (later, db) ∷ []

reconcile_event-once_example :
    (let after = run_events between (reconcile_event world first start).state in
      reconcile_event later first after ≡ record { error = none; effects = []; state = after })
unfolding reconcile_event process_event lookup matches_policy_with_selector matches_selector
    is_rate_limited is_object_in_cooldown text_dec ℕ_discrete
reconcile_event-once_example =
    reconcile_event-once world later first start (codes "automatic") between
      (inr (inr (inr (inl refl))))

reconcile_event-one_per_object_example :
    (let after = run_events between (reconcile_event world first start).state in
      (reconcile_event later second after ≡ record { error = none; effects = []; state = after })
      ⊎ (reconcile_event later second after
          ≡ record { error = none; effects = updated_rate_limit_status ∷ []; state = after }))
unfolding reconcile_event process_event lookup matches_policy_with_selector matches_selector
    is_rate_limited is_object_in_cooldown text_dec ℕ_discrete object_key
reconcile_event-one_per_object_example =
    reconcile_event-one_per_object world later first second policy [] [] selector selector start
      (codes "automatic") between refl refl (inr (inr (inr (inl refl)))) (omega arith, tt) refl refl
      refl (omega arith)
