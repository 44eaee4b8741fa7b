-- ===== src/ResourceSync/Debounce.antt =====
-- resourcesync_debounce.go: the buffer that batches changes. The int64 counters are kept as bit
-- patterns. The MCP client is the function that `flush` calls; `none` is the nil client. A flush is in
-- two parts, before and after the request, since the buffer is unlocked while the request is made.
pub mod Latest
pub mod Batch
pub mod Flush
pub mod Loop
use dot_ai_controller.Prelude.{
  ℕ, ◌+◌, ◌%◌, ◌^◌, Bool, ◌&&◌, Option, none, some, List, [], ◌∷◌, Text, is_empty, text_eq, nat_eq,
  ◌==◌, if◌then◌else◌, length,
}
use dot_ai_controller.Prelude.Map.{Map, lookup, insert}
use dot_ai_controller.ResourceSync.Change.{
  ResourceData, ResourceIdentifier, ResourceChange, ChangeAction, upsert, delete,
}
use dot_ai_controller.ResourceSync.Client.{
  SyncResponse, SyncError, reported, Reply, reply, failure, Counts, get_success_counts,
  get_error_message,
}

abbrev pub Changes : Type 0
Changes = Map Text ResourceChange

abbrev pub SyncClient : Type 0
SyncClient = List ResourceData → List ResourceIdentifier → Reply

pub record Metrics : Type 0 where
  pub total_upserts : ℕ
  pub total_deletes : ℕ
  pub total_flushes : ℕ
  pub total_dropped : ℕ
  pub last_flush_time : ℕ
  pub last_flush_count : ℕ
  pub last_error : Option SyncError
  pub last_error_time : ℕ

pub record DebounceBuffer : Type 0 where
  pub changes : Changes
  pub metrics : Metrics

abbrev pub add64 : ℕ → ℕ → ℕ
add64 a b = (a + b) % 2 ^ 64

-- The buffer that NewDebounceBuffer makes; the window only sets the ticker.
abbrev pub new_debounce_buffer : DebounceBuffer
new_debounce_buffer = record {
  changes = [];
  metrics = record {
    total_upserts = 0;
    total_deletes = 0;
    total_flushes = 0;
    total_dropped = 0;
    last_flush_time = 0;
    last_flush_count = 0;
    last_error = none;
    last_error_time = 0;
  };
}

-- The window that NewDebounceBuffer keeps, in nanoseconds; a window below 0 is given as 0.
unfoldable pub window_of : ℕ → ℕ
window_of w = if w == 0 then 10000000000 else w

increment_dropped : Metrics → Metrics
increment_dropped m = record m { total_dropped = add64 m.total_dropped 1 }

record_error : ℕ → SyncError → Metrics → Metrics
record_error now e m = record m { last_error = some e; last_error_time = now }

clear_error : Metrics → Metrics
clear_error m = record m { last_error = none }

-- `record`; a nil change is `none`.
unfoldable pub record_change : DebounceBuffer → Option ResourceChange → DebounceBuffer
unfolding insert increment_dropped
record_change b none = b
record_change b (some change) =
    if is_empty change.id
    then record b { metrics = increment_dropped b.metrics }
    else record b { changes = insert change.id change b.changes }

-- What a flush has collected.
pub record Collected : Type 0 where
  pub upserts : List ResourceData
  pub deletes : List ResourceIdentifier
  pub to_requeue : Changes

add_upsert : Text → ResourceChange → Option ResourceData → Collected → Collected
add_upsert id change none c = c
add_upsert id change (some d) c = record c {
  upserts = d ∷ c.upserts;
  to_requeue = (id, change) ∷ c.to_requeue;
}

add_delete : Text → ResourceChange → Option ResourceIdentifier → Collected → Collected
add_delete id change none c = c
add_delete id change (some d) c = record c {
  deletes = d ∷ c.deletes;
  to_requeue = (id, change) ∷ c.to_requeue;
}

collect_one : ChangeAction → Text → ResourceChange → Collected → Collected
unfolding add_upsert add_delete
collect_one delete id change c = add_delete id change change.delete_identifier c
collect_one upsert id change c = add_upsert id change change.payload c

-- The loop over the pending changes: the lists are in the order of the iteration.
unfoldable pub collect : Changes → Collected
unfolding collect_one
collect [] = record { upserts = []; deletes = []; to_requeue = [] }
collect ((id, change) ∷ m) = collect_one change.action id change (collect m)

-- The part of `flush` under the lock: what is collected, and the emptied buffer.
unfoldable pub take_pending : DebounceBuffer → Collected × DebounceBuffer
unfolding collect
take_pending b = (collect b.changes, record b { changes = [] })

requeue_one : Option ResourceChange → Text → ResourceChange → Changes → Changes
unfolding insert
requeue_one none id change m = insert id change m
requeue_one (some newer) id change m = m

requeue : Changes → Changes → Changes
unfolding requeue_one lookup
requeue [] m = m
requeue ((id, change) ∷ l) m = requeue l (requeue_one (lookup id m) id change m)

unfoldable pub requeue_changes_from_map : DebounceBuffer → Changes → DebounceBuffer
unfolding requeue
requeue_changes_from_map b l = record b { changes = requeue l b.changes }

update_metrics : ℕ → SyncResponse → ℕ → Metrics → Metrics
unfolding get_success_counts
update_metrics now resp attempted m =
    let counts = get_success_counts resp in
    let flushed = record m {
      total_flushes = add64 m.total_flushes 1;
      last_flush_time = now;
      last_flush_count = attempted;
    } in
    if resp.success
    then record flushed {
      total_upserts = add64 m.total_upserts counts.upserted;
      total_deletes = add64 m.total_deletes counts.deleted;
    }
    else flushed

-- The part of `flush` after the request.
unfoldable pub settle : ℕ → Collected → Reply → DebounceBuffer → DebounceBuffer
unfolding record_error requeue_changes_from_map update_metrics clear_error get_error_message
settle now c (failure resp e) b =
    requeue_changes_from_map (record b { metrics = record_error now e b.metrics }) c.to_requeue
settle now c (reply resp) b =
    let updated = update_metrics now resp (length c.upserts + length c.deletes) b.metrics in
    record b {
      metrics =
          if resp.success
          then clear_error updated
          else record_error now (reported (get_error_message resp)) updated;
    }

unfoldable pub is_idle : Collected → Bool
is_idle c = length c.upserts == 0 && length c.deletes == 0

-- The request that a flush makes, if it makes one.
abbrev pub Sent : Type 0
Sent = Option Collected

send_collected : Option SyncClient → ℕ → Collected → DebounceBuffer → Sent × DebounceBuffer
unfolding settle
send_collected none now c b = (none, b)
send_collected (some client) now c b = (some c, settle now c (client c.upserts c.deletes) b)

-- `flush`, with nothing recorded while the request is made.
unfoldable pub flush : Option SyncClient → ℕ → DebounceBuffer → Sent × DebounceBuffer
unfolding take_pending is_idle send_collected
flush client now b =
    if length b.changes == 0
    then (none, b)
    else let (c, emptied) = take_pending b in
      if is_idle c then (none, emptied) else send_collected client now c emptied

-- GetMetrics reads the metrics and the number of pending changes, as PendingCount does.
unfoldable pub pending_count : DebounceBuffer → ℕ
pending_count b = length b.changes

-- What the select of `Run` receives: a change (none for a nil one), a tick of the ticker at a time
-- with the outcome of the client's call, or the end, by the context or by the closed queue.
pub data Signal : Type 0 where
  change : Option ResourceChange → Signal
  tick : ℕ → Option SyncClient → Signal

-- `Run` up to an end that has not come yet.
unfoldable pub run_loop : DebounceBuffer → List Signal → DebounceBuffer
unfolding record_change flush
run_loop b [] = b
run_loop b (change c ∷ rest) = run_loop (record_change b c) rest
run_loop b (tick now client ∷ rest) = run_loop (flush client now b).1 rest

-- `Run`: the loop and the final flush.
unfoldable pub run : DebounceBuffer → List Signal → Option SyncClient → ℕ → Sent × DebounceBuffer
unfolding run_loop
run b signals client now = flush client now (run_loop b signals)
