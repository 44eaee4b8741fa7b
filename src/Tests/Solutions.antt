-- ===== src/Tests/Solutions.antt =====
-- Runs of the status of a solution of two resources, one of which is there and one of which is not.
use dot_ai_controller.Prelude.{
  ◌≡◌, ◌↔◌, true, false, not, none, some, [], ◌∷◌, Text, codes, text_dec, text_eq, any_of,
}
use dot_ai_controller.Solution.{
  Resource, ResourceReference, Solution, deployed, degraded, Got, got, not_found, Messages, refresh,
}
use dot_ai_controller.Solution.Health.{is_healthy, has_failed, reads, refresh-state}

abbrev ready_pod : Resource
ready_pod = record {
  conditions = some (some (record { type = codes "Ready"; status = codes "True" }) ∷ []);
  ready_replicas = none;
  available_replicas = none;
  number_ready = none;
  spec_replicas = none;
  desired_number_scheduled = none;
}

abbrev ref : Text → ResourceReference
ref name = record { api_version = codes "v1"; kind = codes "Pod"; namespace = []; name = name }

abbrev solution : Solution
solution = record {
  namespace = codes "d";
  name = codes "s";
  uid = codes "u";
  generation = 2;
  resources = ref (codes "a") ∷ ref (codes "b") ∷ [];
  status = record {
    state = deployed;
    observed_generation = 1;
    total = 0;
    ready_count = 0;
    failed_count = 0;
    conditions = [];
  };
}

abbrev get : ResourceReference → Got Resource
get r = elim (text_dec r.name (codes "a")) [ yes e ↦ got ready_pod | no n ↦ not_found ]

abbrev messages : Messages
messages = record { all_ready = λ r. codes "ready"; not_ready = λ r total f. codes "not ready" }

refresh-state_example :
    (let status = (refresh messages get 7 solution).status in
      let all = reads get (codes "d") solution.resources in
      ((status.state ≡ deployed) ↔ (any_of (λ g. not (is_healthy g)) all ≡ false))
      × ((status.state ≡ degraded) ↔ (any_of has_failed all ≡ true)))
refresh-state_example = refresh-state messages get 7 solution
