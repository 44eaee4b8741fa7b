-- ===== src/Remediation/Events/PerObject.antt =====
-- remediationpolicy_controller.go: how often the events of an object lead to a request.
use dot_ai_controller.Prelude.{
  ℕ, ◌+◌, ◌<◌, ◌≡◌, ◌≢◌, refl, sym, ap, ◌∙◌, ◌⊎◌, inl, inr, true, false, Option, none, some,
  Option-cases, is_some, List, [], ◌∷◌, Text, text_eq, text_dec, ==-true, ==-false, In, arith,
}
use dot_ai_controller.Remediation.RateLimit.{RateState, Verdict, allowed, in_cooldown, over_limit}
use dot_ai_controller.Remediation.Cooldowns.{is_object_in_cooldown, set_object_cooldown-lasts}
use dot_ai_controller.Remediation.Policy.{
  Event, EventSelector, RemediationPolicy, matches_policy_with_selector,
}
use dot_ai_controller.Remediation.Events.Runs.{
  run_events, run_events-holds, reconcile_event-either, AllWorlds,
}
use dot_ai_controller.Remediation.Events.{
  ReconcilerState, Reconciled, World, requested, object_key, process, after_limit, after_cooldown,
  on_match, try_policies, with_policies, reconcile_event, updated_rate_limit_status,
}

-- The object is in its cooldown for all who ask before the end.
abbrev Cools : Text → ℕ → ReconcilerState → Type 0
Cools key until st =
    (asked : ℕ)
    → asked < until
    → is_some (is_object_in_cooldown asked key st.object_cooldowns) ≡ true

-- The cooldown that handling an event leaves.
Cooling : World → Event → RemediationPolicy → Reconciled → Type 0
Cooling w event policy r =
    (mode : Text)
    → In (requested mode) r.effects
    → (asked : ℕ) → asked < w.set_at + 300000000000
    → is_some (is_object_in_cooldown asked (object_key w event policy) r.state.object_cooldowns)
      ≡ true

process-cools :
    (w : World) (event : Event) (policy : RemediationPolicy) (selector : EventSelector)
    (st : ReconcilerState)
    → Cooling w event policy (process w event policy selector st)
unfolding process Cooling
process-cools w event policy selector st mode m asked early =
    rw
      (
        set_object_cooldown-lasts w.set_at asked (object_key w event policy)
            (object_key w event policy) st.object_cooldowns,
        ==-true (object_key w event policy) (object_key w event policy) refl,
      )
      (ground arith)

after_limit-cools :
    (w : World) (event : Event) (policy : RemediationPolicy) (selector : EventSelector)
    (st : ReconcilerState) (v : Verdict × RateState)
    → Cooling w event policy (after_limit w event policy selector st v)
unfolding Cooling after_limit
after_limit-cools w event policy selector st (allowed, rate) mode m =
    process-cools w event policy selector (record st { rate = rate }) mode m
after_limit-cools w event policy selector st (in_cooldown left, rate) mode m = absurd (ground arith)
after_limit-cools w event policy selector st (over_limit n k, rate) mode m = absurd (ground arith)

after_cooldown-cools :
    (w : World) (event : Event) (policy : RemediationPolicy) (selector : EventSelector)
    (st : ReconcilerState) (o : Option ℕ)
    → Cooling w event policy (after_cooldown w event policy selector st o)
unfolding Cooling after_cooldown
after_cooldown-cools w event policy selector st none mode m =
    after_limit-cools w event policy selector st _ mode m
after_cooldown-cools w event policy selector st (some left) mode m = absurd (ground arith)

nothing_sent-cools :
    (w : World) (event : Event) (policy : RemediationPolicy) (st : ReconcilerState)
    → Cooling w event policy (record { error = none; effects = []; state = st })
unfolding Cooling
nothing_sent-cools w event policy st mode m = elim m [ ]

none-is_some : false ≢ true
none-is_some e = cc

-- The first policy of the list matches.
module _ (w : World) (event : Event) (policy : RemediationPolicy) (rest : List RemediationPolicy)
    (selector : EventSelector) (st : ReconcilerState) (l : w.list_policies ≡ some (policy ∷ rest))
    (h : matches_policy_with_selector w.match_string event policy ≡ some selector) where
  first_policy :
      with_policies w event st w.list_policies
      ≡ after_cooldown w event policy selector st
          (is_object_in_cooldown w.asked_at (object_key w event policy) st.object_cooldowns)
  unfolding with_policies try_policies on_match
  first_policy = rw (l, h) refl

  reconcile_event-cools : Cooling w event policy (reconcile_event w event st)
  reconcile_event-cools = elim (reconcile_event-either w event st) [
    | inl e ↦ rw e (nothing_sent-cools w event policy st)
    | inr e ↦ rw (e, first_policy) (after_cooldown-cools w event policy selector st _)
  ]

  cooled-limited :
      (left : ℕ)
      → is_object_in_cooldown w.asked_at (object_key w event policy) st.object_cooldowns ≡ some left
      → (reconcile_event w event st ≡ record { error = none; effects = []; state = st })
        ⊎ (reconcile_event w event st
            ≡ record { error = none; effects = updated_rate_limit_status ∷ []; state = st })
  unfolding after_cooldown
  cooled-limited left c = elim (reconcile_event-either w event st) [
    | inl e ↦ inl e
    | inr e ↦ inr (e ∙ first_policy ∙ rw c refl)
  ]

process-keeps_cooldown :
    (key : Text) (until : ℕ) (w : World) (event : Event) (policy : RemediationPolicy)
    (selector : EventSelector) (st : ReconcilerState)
    → is_object_in_cooldown w.asked_at (object_key w event policy) st.object_cooldowns ≡ none
    → w.asked_at < until
    → Cools key until st
    → Cools key until (process w event policy selector st).state
unfolding process
process-keeps_cooldown key until w event policy selector st free early h asked lt =
    elim (text_dec (object_key w event policy) key) [
      | yes e ↦ absurd (
          none-is_some (
            ap is_some
              (sym free ∙ ap (λ k. is_object_in_cooldown w.asked_at k st.object_cooldowns) e)
            ∙ h w.asked_at early))
      | no n ↦
          rw
            (
              set_object_cooldown-lasts w.set_at asked (object_key w event policy) key
                  st.object_cooldowns,
              ==-false (object_key w event policy) key n,
            )
            (h asked lt)
    ]

run_events-Cools :
    (key : Text) (until : ℕ) (between : List (World × Event)) (st : ReconcilerState)
    → AllWorlds (λ w. w.asked_at < until) between
    → Cools key until st
    → Cools key until (run_events between st)
run_events-Cools key until between st =
    run_events-holds (Cools key until) (λ w. w.asked_at < until) (λ st rate h. h)
      (λ w event policy selector st free early h.
        process-keeps_cooldown key until w event policy selector st free early h)
      between st

-- The events of one object lead to one request in five minutes: once a request is sent for an event under
-- the first policy of the list, and whatever other reconciles, of events of whatever objects, ask about
-- cooldowns after it and less than five minutes after the cooldown was set, a reconcile of any event of the
-- same object, as the key tells, that the same policy matches first, and that asks less than five minutes
-- after the cooldown was set, counts a limited event at most, and leaves the state.
pub reconcile_event-one_per_object :
    (w later : World) (event next : Event) (policy : RemediationPolicy)
    (rest rest' : List RemediationPolicy) (selector selector' : EventSelector)
    (st : ReconcilerState) (mode : Text) (between : List (World × Event))
    → w.list_policies ≡ some (policy ∷ rest)
    → matches_policy_with_selector w.match_string event policy ≡ some selector
    → In (requested mode) (reconcile_event w event st).effects
    → AllWorlds (λ v. v.asked_at < w.set_at + 300000000000) between
    → later.list_policies ≡ some (policy ∷ rest')
    → matches_policy_with_selector later.match_string next policy ≡ some selector'
    → object_key later next policy ≡ object_key w event policy
    → later.asked_at < w.set_at + 300000000000
    → (let after = run_events between (reconcile_event w event st).state in
        (reconcile_event later next after ≡ record { error = none; effects = []; state = after })
        ⊎ (reconcile_event later next after
            ≡ record { error = none; effects = updated_rate_limit_status ∷ []; state = after }))
unfolding Cooling
reconcile_event-one_per_object w later event next policy rest rest' selector selector' st mode
      between l h m all l' h' same early =
    let after = run_events between (reconcile_event w event st).state in
    let cools =
      run_events-Cools (object_key w event policy) (w.set_at + 300000000000) between
        (reconcile_event w event st).state all
        (reconcile_event-cools w event policy rest selector st l h mode m) later.asked_at early in
    elim (Option-cases (
      is_object_in_cooldown later.asked_at (object_key later next policy) after.object_cooldowns)) [
        | inl free ↦ absurd (
            none-is_some (
              ap is_some (
                sym free
                ∙ ap (λ k. is_object_in_cooldown later.asked_at k after.object_cooldowns) same)
              ∙ cools))
        | inr (left, c) ↦ cooled-limited later next policy rest' selector' after l' h' left c
      ]
