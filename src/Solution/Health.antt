-- ===== src/Solution/Health.antt =====
-- solution_controller.go, `checkResourceHealth` and `updateSolutionStatus`: what the status says.
use dot_ai_controller.Prelude.{
  ℕ, suc, ◌+◌, ◌≤◌, ◌<◌, ◌≡◌, ◌↔◌, refl, sym, ap, Bool, true, false, not, Option, none, some, List,
  [], ◌∷◌, Text, codes, text_eq, nat_eq, ◌==◌, leb, length, keep, length-keep-le, any_of, arith,
}
use dot_ai_controller.Solution.{
  ConditionEntry, Resource, status_of, first_condition, check_status_conditions,
  check_replica_counts, first_of, or_one, check_resource_health, health_of, ResourceReference,
  deployed, degraded, Solution, in_namespace, Got, got, not_found, forbidden, other_error,
  count_one, count_resources, overall_state, refresh, Messages,
}

-- What a read of a resource says: it is there and healthy; or it is missing or there and unhealthy. An
-- error but NotFound says neither.
abbrev pub is_healthy : Got Resource → Bool
is_healthy (got resource) = (check_resource_health resource).0
is_healthy not_found = false
is_healthy forbidden = false
is_healthy other_error = false

abbrev pub has_failed : Got Resource → Bool
has_failed (got resource) = not (check_resource_health resource).0
has_failed not_found = true
has_failed forbidden = false
has_failed other_error = false

-- The reads of the resources of a solution, in order.
abbrev pub reads :
    (ResourceReference → Got Resource) → Text → List ResourceReference → List (Got Resource)
reads get namespace [] = []
reads get namespace (ref ∷ refs) = get (in_namespace namespace ref) ∷ reads get namespace refs

count_one-counts :
    (g : Got Resource) (rest : List (Got Resource))
    → count_one g (length (keep is_healthy rest), length (keep has_failed rest))
      ≡ (length (keep is_healthy (g ∷ rest)), length (keep has_failed (g ∷ rest)))
unfolding count_one
count_one-counts not_found rest = refl
count_one-counts forbidden rest = refl
count_one-counts other_error rest = refl
count_one-counts (got resource) rest = ground arith

count_resources-counts :
    (get : ResourceReference → Got Resource) (namespace : Text) (refs : List ResourceReference)
    → count_resources get namespace refs ≡ (
      length (keep is_healthy (reads get namespace refs)),
      length (keep has_failed (reads get namespace refs)),
    )
unfolding count_resources
count_resources-counts get namespace [] = refl
count_resources-counts get namespace (ref ∷ refs) =
    rw (count_resources-counts get namespace refs)
      (count_one-counts (get (in_namespace namespace ref)) (reads get namespace refs))

-- No resource is both.
counts-le :
    (gs : List (Got Resource))
    → length (keep is_healthy gs) + length (keep has_failed gs) ≤ length gs
counts-le [] = omega arith
counts-le (got resource ∷ gs) = ground (arith, counts-le gs)
counts-le (not_found ∷ gs) = omega (arith, counts-le gs)
counts-le (forbidden ∷ gs) = omega (arith, counts-le gs)
counts-le (other_error ∷ gs) = omega (arith, counts-le gs)

length-reads :
    (get : ResourceReference → Got Resource) (namespace : Text) (refs : List ResourceReference)
    → length (reads get namespace refs) ≡ length refs
length-reads get namespace [] = refl
length-reads get namespace (ref ∷ refs) = ap suc (length-reads get namespace refs)

all_healthy :
    (gs : List (Got Resource))
    → (length (keep is_healthy gs) ≡ length gs) ↔ (any_of (λ g. not (is_healthy g)) gs ≡ false)
all_healthy [] = ((λ h. refl), λ h. refl)
all_healthy (g ∷ gs) = (
  (λ h. ground (arith, (all_healthy gs).0, length-keep-le is_healthy gs)),
  λ h. ground (arith, (all_healthy gs).1),
)

some_failed :
    (gs : List (Got Resource)) → (0 < length (keep has_failed gs)) ↔ (any_of has_failed gs ≡ true)
some_failed [] = ((λ h. ground arith), λ h. ground arith)
some_failed (g ∷ gs) =
    ((λ h. ground (arith, (some_failed gs).0)), λ h. ground (arith, (some_failed gs).1))

-- The status of a refreshed solution counts what was read: the ready and the failed resources, of a
-- total that is that of the spec, and together no more than it.
pub refresh-counts :
    (messages : Messages) (get : ResourceReference → Got Resource) (now : ℕ) (fresh : Solution)
    → (let status = (refresh messages get now fresh).status in
        (status.total ≡ length fresh.resources)
        × (status.ready_count
            ≡ length (keep is_healthy (reads get fresh.namespace fresh.resources)))
        × (status.failed_count
            ≡ length (keep has_failed (reads get fresh.namespace fresh.resources)))
        × (status.ready_count + status.failed_count ≤ status.total))
unfolding refresh
refresh-counts messages get now fresh =
    let e = count_resources-counts get fresh.namespace fresh.resources in
    (
      refl,
      ap (λ (p : ℕ × ℕ). p.0) e,
      ap (λ (p : ℕ × ℕ). p.1) e,
      omega (
        arith,
        counts-le (reads get fresh.namespace fresh.resources),
        length-reads get fresh.namespace fresh.resources,
        ap (λ (p : ℕ × ℕ). p.0) e,
        ap (λ (p : ℕ × ℕ). p.1) e,
      ),
    )

overall-deployed :
    (total r f : ℕ) → r + f ≤ total → (overall_state total r f ≡ deployed) ↔ (r ≡ total)
unfolding overall_state
overall-deployed total r f le = ((λ h. ground arith), λ h. ground arith)

overall-degraded : (total r f : ℕ) → r + f ≤ total → (overall_state total r f ≡ degraded) ↔ (0 < f)
unfolding overall_state
overall-degraded total r f le = ((λ h. ground arith), λ h. ground arith)

-- A count that is not there is enough.
abbrev pub enough : ℕ → Option ℕ → Bool
enough wanted none = true
enough wanted (some ready_count) = leb wanted ready_count

-- A refreshed solution is deployed exactly if every resource is there and healthy, and degraded
-- exactly if one is missing or unhealthy.
pub refresh-state :
    (messages : Messages) (get : ResourceReference → Got Resource) (now : ℕ) (fresh : Solution)
    → (let status = (refresh messages get now fresh).status in
        let all = reads get fresh.namespace fresh.resources in
        ((status.state ≡ deployed) ↔ (any_of (λ g. not (is_healthy g)) all ≡ false))
        × ((status.state ≡ degraded) ↔ (any_of has_failed all ≡ true)))
unfolding refresh overall_state
refresh-state messages get now fresh =
    let all = reads get fresh.namespace fresh.resources in
    rw
      (
        count_resources-counts get fresh.namespace fresh.resources,
        sym (length-reads get fresh.namespace fresh.resources),
      )
      (
        (
          (λ h. (all_healthy all).0 ((overall-deployed _ _ _ (counts-le all)).0 h)),
          λ h. (overall-deployed _ _ _ (counts-le all)).1 ((all_healthy all).1 h),
        ),
        (
          (λ h. (some_failed all).0 ((overall-degraded _ _ _ (counts-le all)).0 h)),
          λ h. (overall-degraded _ _ _ (counts-le all)).1 ((some_failed all).1 h),
        ),
      )

-- Conditions come first in the health of a resource: if it has any, a resource whose Ready condition has
-- a status is healthy exactly if that is True, whatever its replicas and its other conditions say.
pub ready_condition-decides :
    (resource : Resource) (c : Option ConditionEntry) (conditions : List (Option ConditionEntry))
    (status : Text)
    → resource.conditions ≡ some (c ∷ conditions)
    → status_of (codes "Ready") (c ∷ conditions) ≡ some status
    → (check_resource_health resource).0 ≡ (status == codes "True")
unfolding check_resource_health check_status_conditions first_condition health_of
ready_condition-decides resource c conditions status e h = rw (e, h) (ground arith)

-- Without conditions a resource is healthy exactly if its first count of ready replicas, if it has one,
-- reaches the replicas that are wanted, one if that is not said.
pub replicas-decide :
    (resource : Resource)
    → resource.conditions ≡ none
    → (check_resource_health resource).0 ≡ (
        let ready_count =
          first_of resource.ready_replicas
            (first_of resource.available_replicas resource.number_ready) in
        (let wanted = or_one (first_of resource.spec_replicas resource.desired_number_scheduled) in
          enough wanted ready_count))
unfolding check_resource_health check_status_conditions check_replica_counts
replicas-decide resource e = rw e (ground arith)
