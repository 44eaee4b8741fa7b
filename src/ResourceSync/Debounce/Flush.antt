-- ===== src/ResourceSync/Debounce/Flush.antt =====
-- resourcesync_debounce.go, `flush` and `requeueChangesFromMap`: what is pending after a flush.
use dot_ai_controller.Prelude.{
  ℕ, ◌+◌, ◌≡◌, refl, true, false, Option, none, some, List, [], ◌∷◌, Text, length, text_eq, nat_eq,
  ◌==◌, if◌then◌else◌, arith,
}
use dot_ai_controller.Prelude.Map.{lookup, lookup-insert, Distinct, keep_if}
use dot_ai_controller.ResourceSync.Change.{ResourceData, ResourceIdentifier, ResourceChange}
use dot_ai_controller.ResourceSync.Client.{
  SyncResponse, SyncError, reply, failure, mcp_returned, get_error_message, is_partial,
  get_success_counts, Attempt, send_with_retry,
}
use dot_ai_controller.ResourceSync.Debounce.{
  Changes, Collected, add64, DebounceBuffer, SyncClient, collect, take_pending, requeue_one,
  requeue, settle, flush,
}
use dot_ai_controller.ResourceSync.Debounce.Batch.{sendable, lookup-to_requeue}
use dot_ai_controller.ResourceSync.Debounce.Latest.{
  or_else, record_all, last_with_id, record_all-last_wins,
}

lookup-requeue_one :
    (o : Option ResourceChange) (id j : Text) (c : ResourceChange) (m : Changes)
    → o ≡ lookup id m
    → lookup j (requeue_one o id c m) ≡ or_else (lookup j m) (if id == j then some c else none)
unfolding requeue_one
lookup-requeue_one none id j c m e = ground (arith, lookup-insert id j c m)
lookup-requeue_one (some n) id j c m e = ground (arith)

-- What is requeued does not replace what is there.
lookup-requeue :
    (l m : Changes) (j : Text) → lookup j (requeue l m) ≡ or_else (lookup j m) (lookup j l)
unfolding requeue lookup
lookup-requeue [] m j = ground arith
lookup-requeue ((id, c) ∷ l) m j = ground (
  arith,
  lookup-requeue l (requeue_one (lookup id m) id c m) j,
  lookup-requeue_one (lookup id m) id j c m refl,
)

pub lookup-nil : (id : Text) → lookup {V = ResourceChange} id [] ≡ none
unfolding lookup
lookup-nil id = refl

-- A failed request loses nothing that can be sent, and never undoes what was recorded since: after
-- a flush has taken the pending changes of `b`, in which no id stands twice, any changes `cs` have
-- been recorded while the request was made, and it has failed, what is pending for an id is the
-- last of `cs` that has the id; if none has it, it is what was pending before the flush if that can
-- be sent, and nothing otherwise. The error is kept as the last error.
pub failed_flush-keeps :
    (b : DebounceBuffer) (cs : List (Option ResourceChange)) (now : ℕ) (resp : Option SyncResponse)
    (e : SyncError) (id : Text)
    → Distinct b.changes
    → (let (c, emptied) = take_pending b in
        let after = settle now c (failure resp e) (record_all emptied cs) in
        (lookup id after.changes
          ≡ or_else (last_with_id id cs) (keep_if sendable id (lookup id b.changes)))
        × (after.metrics.last_error ≡ some e))
unfolding settle take_pending
failed_flush-keeps b cs now resp e id d =
    let emptied : DebounceBuffer = record b { changes = [] } in
    (
      ground (
        arith,
        lookup-requeue (collect b.changes).to_requeue (record_all emptied cs).changes id,
        record_all-last_wins emptied cs id,
        lookup-nil id,
        lookup-to_requeue b.changes id d,
      ),
      refl,
    )

pub flush-sent :
    (client : SyncClient) (now : ℕ) (b : DebounceBuffer) (c : Collected)
    → (flush (some client) now b).0 ≡ some c
    → (c ≡ collect b.changes)
      × ((flush (some client) now b).1
          ≡ settle now c (client c.upserts c.deletes) (record b { changes = [] }))
unfolding flush
flush-sent client now b c sent = ground arith

-- What a flush does when it makes a request, is answered, and nothing is recorded meanwhile. If the
-- server reports success, nothing is pending any more, the error of an earlier flush is cleared, and
-- the numbers of upserts and deletes that the server reports are added to the totals.
pub successful_flush :
    (client : SyncClient) (now : ℕ) (b : DebounceBuffer) (c : Collected) (r : SyncResponse)
    → (flush (some client) now b).0 ≡ some c
    → client c.upserts c.deletes ≡ reply r
    → r.success ≡ true
    → (let after = (flush (some client) now b).1 in
        (after.changes ≡ [])
        × (after.metrics.last_error ≡ none)
        × (after.metrics.total_upserts
            ≡ add64 b.metrics.total_upserts (get_success_counts r).upserted)
        × (after.metrics.total_deletes
            ≡ add64 b.metrics.total_deletes (get_success_counts r).deleted)
        × (after.metrics.total_flushes ≡ add64 b.metrics.total_flushes 1)
        × (after.metrics.last_flush_count ≡ length c.upserts + length c.deletes))
unfolding flush
successful_flush client now b c r sent answered good = ground arith

-- The result of `sendWithRetry` at a partial failure, a response with details that reports failure, is
-- the response with an error beside it.
partial_reply :
    (m : ℕ) (world : ℕ → Attempt) {r : SyncResponse}
    → (world 0).outcome ≡ reply r
    → r.success ≡ false
    → is_partial r ≡ true
    → send_with_retry m world ≡ failure (some r) (mcp_returned (get_error_message r))
unfolding send_with_retry
partial_reply m world o s p = ground arith

-- With the client that retries, a flush of a buffer in which no id stands twice, whose first
-- attempt is answered by a partial failure, requeues every change that it sent, those included that
-- the server reports as done: for each id, what can be sent is pending as before.
pub partial_failure-requeues :
    (m : ℕ) (world : List ResourceData → List ResourceIdentifier → ℕ → Attempt) (now : ℕ)
    (b : DebounceBuffer) (c : Collected) (r : SyncResponse) (id : Text)
    → Distinct b.changes
    → (flush (some (λ u d. send_with_retry m (world u d))) now b).0 ≡ some c
    → (world c.upserts c.deletes 0).outcome ≡ reply r
    → r.success ≡ false
    → is_partial r ≡ true
    → lookup id (flush (some (λ u d. send_with_retry m (world u d))) now b).1.changes
      ≡ keep_if sendable id (lookup id b.changes)
unfolding collect take_pending
partial_failure-requeues m world now b c r id d sent o s p =
    let client : SyncClient = λ u d. send_with_retry m (world u d) in
    let (whole, after) = flush-sent client now b c sent in
    rw (after, partial_reply m (world c.upserts c.deletes) o s p, whole)
      (failed_flush-keeps b [] now (some r) (mcp_returned (get_error_message r)) id d).0
