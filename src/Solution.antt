-- ===== src/Solution.antt =====
-- internal/controller/solution_controller.go: the health of the resources of a Solution, its status, and
-- the owner references. Counts of replicas are natural numbers.
pub mod Health
pub mod Ownership
use dot_ai_controller.Prelude.{
  ℕ, suc, Bool, true, false, not, ◌&&◌, Option, none, some, List, [], ◌∷◌, Text, codes, is_empty,
  text_eq, nat_eq, ◌==◌, leb, ltb, if◌then◌else◌, length,
}
use dot_ai_controller.Status.{Condition, ready, put_condition}
use dot_ai_controller.Status.Update.{StatusAttempt, StatusResult, update_status}

pub record ConditionEntry : Type 0 where
  pub type : Text
  pub status : Text

-- What the code looks up in the unstructured object: `none` is a field that is missing or of another
-- type; an entry of the conditions that is no map is `none`.
pub record Resource : Type 0 where
  pub conditions : Option (List (Option ConditionEntry))
  pub ready_replicas : Option ℕ
  pub available_replicas : Option ℕ
  pub number_ready : Option ℕ
  pub spec_replicas : Option ℕ
  pub desired_number_scheduled : Option ℕ

pub data HealthReason : Type 0 where
  condition_true : Text → HealthReason
  condition_not_true : Text → Text → HealthReason
  no_ready_condition resource_exists : HealthReason
  replicas_of : ℕ → ℕ → HealthReason

abbrev pub Health : Type 0
Health = Bool × HealthReason

-- The first condition of the type, by its status.
unfoldable pub status_of : Text → List (Option ConditionEntry) → Option Text
status_of type [] = none
status_of type (none ∷ conditions) = status_of type conditions
status_of type (some c ∷ conditions) =
    if c.type == type then some c.status else status_of type conditions

health_of : Text → Text → Health
health_of type status =
    if status == codes "True"
    then (true, condition_true type)
    else (false, condition_not_true type status)

abbrev or_next : Text → Option Text → Health → Health
or_next type none next = next
or_next type (some status) next = health_of type status

unfoldable pub first_condition : List Text → List (Option ConditionEntry) → Health
unfolding status_of health_of
first_condition [] conditions = (false, no_ready_condition)
first_condition (type ∷ types) conditions =
    or_next type (status_of type conditions) (first_condition types conditions)

abbrev pub ready_condition_types : List Text
ready_condition_types = codes "Ready" ∷ codes "Available" ∷ codes "Healthy" ∷ codes "Synced" ∷ []

-- `none` is not found.
unfoldable pub check_status_conditions : Resource → Option Health
unfolding first_condition
check_status_conditions resource = elim resource.conditions [
  | none ↦ none
  | some [] ↦ none
  | some (c ∷ conditions) ↦ some (first_condition ready_condition_types (c ∷ conditions))
]

abbrev pub first_of : Option ℕ → Option ℕ → Option ℕ
first_of (some n) o = some n
first_of none o = o

abbrev pub or_one : Option ℕ → ℕ
or_one none = 1
or_one (some n) = n

unfoldable pub check_replica_counts : Resource → Option Health
check_replica_counts resource =
    elim (first_of resource.ready_replicas
      (first_of resource.available_replicas resource.number_ready)) [
        | none ↦ none
        | some ready_count ↦
            let replicas =
              or_one (first_of resource.spec_replicas resource.desired_number_scheduled) in
            some (leb replicas ready_count, replicas_of ready_count replicas)
      ]

abbrev or_health : Option Health → Health → Health
or_health none next = next
or_health (some h) next = h

unfoldable pub check_resource_health : Resource → Health
unfolding check_status_conditions check_replica_counts
check_resource_health resource =
    or_health (check_status_conditions resource)
      (or_health (check_replica_counts resource) (true, resource_exists))

pub record ResourceReference : Type 0 where
  pub api_version : Text
  pub kind : Text
  pub namespace : Text
  pub name : Text

pub data State : Type 0 where
  deployed degraded pending : State

pub record SolutionStatus : Type 0 where
  pub state : State
  pub observed_generation : ℕ
  pub total : ℕ
  pub ready_count : ℕ
  pub failed_count : ℕ
  pub conditions : List Condition

pub record Solution : Type 0 where
  pub namespace : Text
  pub name : Text
  pub uid : Text
  pub generation : ℕ
  pub resources : List ResourceReference
  pub status : SolutionStatus

-- A reference without a namespace is to one in the solution's.
unfoldable pub in_namespace : Text → ResourceReference → ResourceReference
in_namespace namespace ref =
    if is_empty ref.namespace then record ref { namespace = namespace } else ref

-- The outcome of getResource. An API version that does not parse is one of the other errors.
pub data Got (A : Type 0) : Type 0 where
  got : A → Got A
  not_found forbidden other_error : Got A

-- How many resources are ready, and how many failed.
count_one : Got Resource → ℕ × ℕ → ℕ × ℕ
unfolding check_resource_health
count_one not_found (r, f) = (r, suc f)
count_one forbidden (r, f) = (r, f)
count_one other_error (r, f) = (r, f)
count_one (got resource) (r, f) =
    if (check_resource_health resource).0 then (suc r, f) else (r, suc f)

unfoldable pub count_resources :
    (ResourceReference → Got Resource) → Text → List ResourceReference → ℕ × ℕ
unfolding count_one in_namespace
count_resources get namespace [] = (0, 0)
count_resources get namespace (ref ∷ refs) =
    count_one (get (in_namespace namespace ref)) (count_resources get namespace refs)

unfoldable pub overall_state : ℕ → ℕ → ℕ → State
overall_state total ready_count failed_count =
    if failed_count == 0 && ready_count == total
    then deployed
    else if ltb 0 failed_count
    then degraded
    else pending

-- The message is formatted from the counts.
unfoldable pub ready_condition : ℕ → Text → State → Condition
ready_condition now message deployed = record {
  type = ready;
  status = true;
  last_transition_time = now;
  reason = codes "AllResourcesReady";
  message = message;
}
ready_condition now message degraded = record {
  type = ready;
  status = false;
  last_transition_time = now;
  reason = codes "ResourcesNotReady";
  message = message;
}
ready_condition now message pending = record {
  type = ready;
  status = false;
  last_transition_time = now;
  reason = codes "ResourcesNotReady";
  message = message;
}

-- fmt.Sprintf with the two formats of the code: of the number that is ready, or of it, the total and the
-- number that failed.
pub record Messages : Type 0 where
  pub all_ready : ℕ → Text
  pub not_ready : ℕ → ℕ → ℕ → Text

abbrev message_of : Messages → ℕ → ℕ → ℕ → State → Text
message_of m r total f deployed = m.all_ready r
message_of m r total f degraded = m.not_ready r total f
message_of m r total f pending = m.not_ready r total f

-- What an attempt of updateSolutionStatus makes of the fresh copy.
unfoldable pub refresh : Messages → (ResourceReference → Got Resource) → ℕ → Solution → Solution
unfolding count_resources overall_state ready_condition put_condition
refresh messages get now fresh =
    let total = length fresh.resources in
    let (r, f) = count_resources get fresh.namespace fresh.resources in
    let state = overall_state total r f in
    record fresh {
      status = record {
        state = state;
        observed_generation = fresh.generation;
        total = total;
        ready_count = r;
        failed_count = f;
        conditions =
            put_condition (ready_condition now (message_of messages r total f state) state)
              fresh.status.conditions;
      };
    }

-- At each attempt, what the API has of the resources, and the time.
unfoldable pub update_solution_status :
    Messages
    → (ℕ → (ResourceReference → Got Resource) × ℕ)
    → (ℕ → StatusAttempt Solution)
    → StatusResult Solution
unfolding update_status refresh
update_solution_status messages api world =
    update_status (λ n. refresh messages (api n).0 (api n).1) world
