-- ===== src/Tests/Batches.antt =====
-- Runs of the debounce buffer of the resource sync: an upsert and a delete are pending.
use dot_ai_controller.Prelude.{
  ℕ, ◌≡◌, refl, true, false, none, some, List, [], ◌∷◌, Text, codes, text_dec, text_eq, ℕ_discrete,
}
use dot_ai_controller.Prelude.Map.{lookup}
use dot_ai_controller.ResourceSync.Change.{
  ResourceData, ResourceIdentifier, ResourceChange, upsert, delete,
}
use dot_ai_controller.ResourceSync.Client.{
  SyncResponse, send_failed, reply, failure, Attempt, send_with_retry, is_partial,
}
use dot_ai_controller.ResourceSync.Debounce.{
  DebounceBuffer, SyncClient, change, tick, new_debounce_buffer, collect, take_pending, settle,
  flush, is_idle, run_loop,
}
use dot_ai_controller.ResourceSync.Debounce.Latest.{record_all}
use dot_ai_controller.ResourceSync.Debounce.Batch.{sendable}
use dot_ai_controller.ResourceSync.Debounce.Flush.{failed_flush-keeps, partial_failure-requeues}
use dot_ai_controller.ResourceSync.Debounce.Loop.{unsent, down_loop-keeps}

abbrev x : Text
x = codes "x"

abbrev gone : ResourceChange
gone = record {
  action = delete;
  payload = none;
  id = x;
  delete_identifier =
      some
        (record { namespace = codes "d"; name = x; kind = codes "Pod"; api_version = codes "v1" });
}

abbrev there : ResourceChange
there = record {
  action = upsert;
  payload = some (record {
    namespace = codes "d";
    name = codes "y";
    kind = codes "Pod";
    api_version = codes "v1";
    labels = [];
    annotations = [];
    created_at = 1;
    updated_at = 2;
  });
  id = codes "y";
  delete_identifier = none;
}

abbrev two : DebounceBuffer
two = record new_debounce_buffer { changes = (x, gone) ∷ (codes "y", there) ∷ [] }

-- A server that is down, one that does all, and one that does a part.
abbrev down : SyncClient
down upserts deletes = failure none (send_failed (codes "refused"))

abbrev done : SyncResponse
done = record { success = true; counts = some (record { upserted = 1; deleted = 1 }); error = none }

abbrev up : SyncClient
up upserts deletes = reply done

abbrev part : SyncResponse
part = record {
  success = false;
  counts = none;
  error = some (record {
    code = codes "PARTIAL";
    message = codes "some failed";
    details = some (record { counts = record { upserted = 1; deleted = 0 }; failures = [] });
  });
}

abbrev attempts : List ResourceData → List ResourceIdentifier → ℕ → Attempt
attempts upserts deletes n = record {
  cancelled_in_wait = false;
  outcome = reply part;
  cancelled_after = false;
}

failed_flush-keeps_example :
    (let (c, emptied) = take_pending two in
      let after =
        settle 7 c
          (failure none (send_failed (codes "refused")))
          (record_all emptied (some there ∷ [])) in
      (lookup x after.changes ≡ some gone)
      × (after.metrics.last_error ≡ some (send_failed (codes "refused"))))
unfolding lookup sendable text_dec ℕ_discrete
failed_flush-keeps_example =
    failed_flush-keeps two (some there ∷ []) 7 none (send_failed (codes "refused")) x
      (refl, (refl, tt))

partial_failure-requeues_example :
    lookup x (flush (some (λ u d. send_with_retry 3 (attempts u d))) 7 two).1.changes ≡ some gone
unfolding flush collect is_idle is_partial sendable lookup text_dec ℕ_discrete
partial_failure-requeues_example =
    partial_failure-requeues 3 attempts 7 two (collect two.changes) part x (refl, (refl, tt)) refl
      refl refl refl

down_loop-keeps_example :
    unsent x (
      run_loop new_debounce_buffer
        (change (some gone) ∷ tick 5 (some down) ∷ change (some there) ∷ tick 6 (some down) ∷ []))
    ≡ some gone
unfolding lookup sendable text_dec ℕ_discrete
down_loop-keeps_example =
    down_loop-keeps new_debounce_buffer
      (change (some gone) ∷ tick 5 (some down) ∷ change (some there) ∷ tick 6 (some down) ∷ []) x tt
      (
        (λ u d. (send_failed (codes "refused"), none, refl)),
        ((λ u d. (send_failed (codes "refused"), none, refl)), tt),
      )
