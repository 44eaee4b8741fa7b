-- ===== src/Remediation/Events/Runs.antt =====
-- remediationpolicy_controller.go: reconciles of events, one after the other.
use dot_ai_controller.Prelude.{
  ℕ, ◌≡◌, refl, ◌⊎◌, inl, inr, Option, none, some, List, [], ◌∷◌, text_eq, arith,
}
use dot_ai_controller.Remediation.RateLimit.{RateState, Verdict, allowed, in_cooldown, over_limit}
use dot_ai_controller.Remediation.Cooldowns.{is_object_in_cooldown}
use dot_ai_controller.Remediation.Policy.{Event, EventSelector, RemediationPolicy}
use dot_ai_controller.Remediation.Events.{
  ReconcilerState, Reconciled, World, object_key, process, after_limit, after_cooldown, on_match,
  try_policies, with_policies, reconcile_event,
}

-- The state after reconciles of events, each in its world.
abbrev pub run_events : List (World × Event) → ReconcilerState → ReconcilerState
run_events [] st = st
run_events ((w, event) ∷ rest) st = run_events rest (reconcile_event w event st).state

abbrev pub AllWorlds : (World → Type 0) → List (World × Event) → Type 0
AllWorlds P [] = Unit {0}
AllWorlds P ((w, event) ∷ rest) = P w × AllWorlds P rest

pub reconcile_event-either :
    (w : World) (event : Event) (st : ReconcilerState)
    → (reconcile_event w event st ≡ record { error = none; effects = []; state = st })
      ⊎ (reconcile_event w event st ≡ with_policies w event st w.list_policies)
unfolding reconcile_event
reconcile_event-either w event st = ground arith

-- What a change of the rate limits keeps, and the handling of an event whose object is not in its cooldown, holds
-- after all reconciles.
module _ (K : ReconcilerState → Type 0) (P : World → Type 0)
    (with_rate : (st : ReconcilerState) (rate : RateState) → K st → K (record st { rate = rate }))
    (handled : (w : World) (event : Event) (policy : RemediationPolicy) (selector : EventSelector)
        (st : ReconcilerState)
      → is_object_in_cooldown w.asked_at (object_key w event policy) st.object_cooldowns ≡ none
      → P w
      → K st
      → K (process w event policy selector st).state) where
  after_limit-holds :
      (w : World) (event : Event) (policy : RemediationPolicy) (selector : EventSelector)
      (st : ReconcilerState) (v : Verdict × RateState)
      → is_object_in_cooldown w.asked_at (object_key w event policy) st.object_cooldowns ≡ none
      → P w
      → K st
      → K (after_limit w event policy selector st v).state
  unfolding after_limit
  after_limit-holds w event policy selector st (allowed, rate) free p k =
      handled w event policy selector (record st { rate = rate }) free p (with_rate st rate k)
  after_limit-holds w event policy selector st (in_cooldown left, rate) free p k =
      with_rate st rate k
  after_limit-holds w event policy selector st (over_limit n m, rate) free p k = with_rate st rate k

  after_cooldown-holds :
      (w : World) (event : Event) (policy : RemediationPolicy) (selector : EventSelector)
      (st : ReconcilerState) (o : Option ℕ)
      → is_object_in_cooldown w.asked_at (object_key w event policy) st.object_cooldowns ≡ o
      → P w
      → K st
      → K (after_cooldown w event policy selector st o).state
  unfolding after_cooldown
  after_cooldown-holds w event policy selector st none free p k =
      after_limit-holds w event policy selector st _ free p k
  after_cooldown-holds w event policy selector st (some left) e p k = k

  on_match-holds :
      (w : World) (event : Event) (policy : RemediationPolicy) (st : ReconcilerState)
      (o : Option EventSelector) (next : Reconciled)
      → P w
      → K st
      → K next.state
      → K (on_match w event policy st o next).state
  unfolding on_match
  on_match-holds w event policy st none next p k n = n
  on_match-holds w event policy st (some selector) next p k n =
      after_cooldown-holds w event policy selector st _ refl p k

  try_policies-holds :
      (w : World) (event : Event) (st : ReconcilerState) (policies : List RemediationPolicy)
      → P w
      → K st
      → K (try_policies w event st policies).state
  unfolding try_policies
  try_policies-holds w event st [] p k = k
  try_policies-holds w event st (policy ∷ policies) p k =
      on_match-holds w event policy st _ _ p k (try_policies-holds w event st policies p k)

  with_policies-holds :
      (w : World) (event : Event) (st : ReconcilerState) (o : Option (List RemediationPolicy))
      → P w
      → K st
      → K (with_policies w event st o).state
  unfolding with_policies
  with_policies-holds w event st none p k = k
  with_policies-holds w event st (some policies) p k = try_policies-holds w event st policies p k

  reconcile_event-holds :
      (w : World) (event : Event) (st : ReconcilerState)
      → P w
      → K st
      → K (reconcile_event w event st).state
  reconcile_event-holds w event st p k = elim (reconcile_event-either w event st) [
    | inl e ↦ rw e k
    | inr e ↦ rw e (with_policies-holds w event st w.list_policies p k)
  ]

  pub run_events-holds :
      (runs : List (World × Event)) (st : ReconcilerState)
      → AllWorlds P runs
      → K st
      → K (run_events runs st)
  run_events-holds [] st all k = k
  run_events-holds ((w, event) ∷ runs) st all k =
      run_events-holds runs (reconcile_event w event st).state all.1
        (reconcile_event-holds w event st all.0 k)
