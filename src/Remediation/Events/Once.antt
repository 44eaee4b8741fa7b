-- ===== src/Remediation/Events/Once.antt =====
-- remediationpolicy_controller.go: how often an event leads to a request.
use dot_ai_controller.Prelude.{
  ℕ, ◌≡◌, refl, true, Option, none, some, List, [], ◌∷◌, Text, text_eq, ==-true, In, arith,
}
use dot_ai_controller.Prelude.Map.{lookup-insert}
use dot_ai_controller.Remediation.RateLimit.{RateState, Verdict, allowed, in_cooldown, over_limit}
use dot_ai_controller.Remediation.Policy.{Event, EventSelector, RemediationPolicy}
use dot_ai_controller.Remediation.Events.Runs.{run_events, run_events-holds, AllWorlds}
use dot_ai_controller.Remediation.Events.{
  ReconcilerState, Reconciled, World, requested, get_event_key, is_event_processed,
  mark_event_processed, process, after_limit, after_cooldown, on_match, try_policies, with_policies,
  reconcile_event,
}

-- What a reconcile that asked for a remediation leaves behind: the event is marked.
Marked : Event → Reconciled → Type 0
Marked event r =
    (mode : Text)
    → In (requested mode) r.effects
    → is_event_processed (get_event_key event) r.state.processed_events ≡ true

process-marks :
    (w : World) (event : Event) (policy : RemediationPolicy) (selector : EventSelector)
    (st : ReconcilerState)
    → is_event_processed
        (get_event_key event)
        (process w event policy selector st).state.processed_events
      ≡ true
unfolding process is_event_processed mark_event_processed
process-marks w event policy selector st =
    rw
      (
        lookup-insert (get_event_key event) (get_event_key event) w.marked_at st.processed_events,
        ==-true (get_event_key event) (get_event_key event) refl,
      )
      refl

after_limit-marks :
    (w : World) (event : Event) (policy : RemediationPolicy) (selector : EventSelector)
    (st : ReconcilerState) (v : Verdict × RateState)
    → Marked event (after_limit w event policy selector st v)
unfolding Marked after_limit
after_limit-marks w event policy selector st (allowed, rate) mode m =
    process-marks w event policy selector (record st { rate = rate })
after_limit-marks w event policy selector st (in_cooldown left, rate) mode m = absurd (ground arith)
after_limit-marks w event policy selector st (over_limit n k, rate) mode m = absurd (ground arith)

after_cooldown-marks :
    (w : World) (event : Event) (policy : RemediationPolicy) (selector : EventSelector)
    (st : ReconcilerState) (o : Option ℕ)
    → Marked event (after_cooldown w event policy selector st o)
unfolding Marked after_cooldown
after_cooldown-marks w event policy selector st none mode m =
    after_limit-marks w event policy selector st _ mode m
after_cooldown-marks w event policy selector st (some left) mode m = absurd (ground arith)

on_match-marks :
    (w : World) (event : Event) (policy : RemediationPolicy) (st : ReconcilerState)
    (o : Option EventSelector) (next : Reconciled)
    → Marked event next
    → Marked event (on_match w event policy st o next)
unfolding on_match
on_match-marks w event policy st none next k = k
on_match-marks w event policy st (some selector) next k =
    after_cooldown-marks w event policy selector st _

try_policies-marks :
    (w : World) (event : Event) (st : ReconcilerState) (policies : List RemediationPolicy)
    → Marked event (try_policies w event st policies)
unfolding try_policies Marked
try_policies-marks w event st [] mode m = elim m [ ]
try_policies-marks w event st (policy ∷ policies) mode m =
    on_match-marks w event policy st _ _ (try_policies-marks w event st policies) mode m

with_policies-marks :
    (w : World) (event : Event) (st : ReconcilerState) (o : Option (List RemediationPolicy))
    → Marked event (with_policies w event st o)
unfolding with_policies Marked
with_policies-marks w event st none mode m = elim m [ ]
with_policies-marks w event st (some policies) mode m =
    try_policies-marks w event st policies mode m

reconcile_event-marks :
    (w : World) (event : Event) (st : ReconcilerState) → Marked event (reconcile_event w event st)
unfolding reconcile_event Marked
reconcile_event-marks w event st mode m =
    ground (arith, with_policies-marks w event st w.list_policies mode)

processed-skips :
    (w : World) (event : Event) (st : ReconcilerState)
    → is_event_processed (get_event_key event) st.processed_events ≡ true
    → reconcile_event w event st ≡ record { error = none; effects = []; state = st }
unfolding reconcile_event
processed-skips w event st h = ground arith

process-keeps_mark :
    (key : Text) (w : World) (event : Event) (policy : RemediationPolicy) (selector : EventSelector)
    (st : ReconcilerState)
    → is_event_processed key st.processed_events ≡ true
    → is_event_processed key (process w event policy selector st).state.processed_events ≡ true
unfolding process is_event_processed mark_event_processed
process-keeps_mark key w event policy selector st h =
    ground (arith, lookup-insert (get_event_key event) key w.marked_at st.processed_events)

all : (between : List (World × Event)) → AllWorlds (λ w. Unit {0}) between
all [] = tt
all (x ∷ between) = (tt, all between)

run_events-marked :
    (key : Text) (between : List (World × Event)) (st : ReconcilerState)
    → is_event_processed key st.processed_events ≡ true
    → is_event_processed key (run_events between st).processed_events ≡ true
run_events-marked key between st =
    run_events-holds (λ st. is_event_processed key st.processed_events ≡ true) (λ w. Unit {0})
      (λ st rate h. h)
      (λ w event policy selector st n u h. process-keeps_mark key w event policy selector st h)
      between st (all between)

-- An event leads to one request at most: once a reconcile has sent a request for it, whether it
-- went well or ended in an error, and whatever other reconciles, of whatever events, came after it, a
-- later one, with no cleanup of the marks between, finds the event marked, returns without an error or an
-- effect, and leaves the state.
pub reconcile_event-once :
    (w later : World) (event : Event) (st : ReconcilerState) (mode : Text)
    (between : List (World × Event))
    → In (requested mode) (reconcile_event w event st).effects
    → (let after = run_events between (reconcile_event w event st).state in
        reconcile_event later event after ≡ record { error = none; effects = []; state = after })
unfolding Marked
reconcile_event-once w later event st mode between m =
    processed-skips later event (run_events between (reconcile_event w event st).state) (
      run_events-marked (get_event_key event) between (reconcile_event w event st).state
        (reconcile_event-marks w event st mode m))
