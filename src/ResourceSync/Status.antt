-- ===== src/ResourceSync/Status.antt =====
-- resourcesync_controller.go: the status of a ResourceSyncConfig, kept within bounds, and its writers, which
-- hold back after a failed write. A write is what was sent, if it was, and the state of the failures after it;
-- there is no such state without an active watcher. Times are in nanoseconds.
pub mod Backoff
pub mod Bounds
use dot_ai_controller.Prelude.{
  ℕ, zero, suc, ◌+◌, ◌-◌, Bool, true, false, ◌&&◌, ◌||◌, Option, none, some, List, [], ◌∷◌, ◌++◌,
  Text, codes, is_empty, contains, split_n, text_eq, ltb, leb, if◌then◌else◌, length, take,
}
use dot_ai_controller.Status.{Condition, ready, find_condition, put_condition}

abbrev pub max_sync_errors_count : ℕ
max_sync_errors_count = 100000

abbrev pub max_last_error_length : ℕ
max_last_error_length = 1024

-- Five minutes.
abbrev pub status_update_backoff_duration : ℕ
status_update_backoff_duration = 300000000000

pub record ResourceSyncConfigStatus : Type 0 where
  pub active : Bool
  pub watched_resource_types : ℕ
  pub total_resources_synced : ℕ
  pub last_sync_time : Option ℕ
  pub last_resync_time : Option ℕ
  pub sync_errors : ℕ
  pub last_error : Text
  pub conditions : List Condition

-- The text of an error, or none.
unfoldable pub is_entity_too_large_error : Option Text → Bool
unfolding contains
is_entity_too_large_error none = false
is_entity_too_large_error (some e) =
    contains e (codes "Request entity too large")
    || (contains e (codes "etcd") && contains e (codes "too large"))

unfoldable pub truncate_error_message : Text → Text
truncate_error_message message =
    if ltb max_last_error_length (length message)
    then take (max_last_error_length - 3) message ++ codes "..."
    else message

unfoldable pub increment_sync_errors : ℕ → ℕ
increment_sync_errors current =
    if leb max_sync_errors_count current then max_sync_errors_count else current + 1

abbrev ready_or : Option Condition → Condition → Condition
ready_or none first = first
ready_or (some c) first = c

-- The Ready condition alone, or else the first one.
unfoldable pub only_ready : List Condition → List Condition
unfolding find_condition
only_ready [] = []
only_ready (c ∷ []) = c ∷ []
only_ready (c ∷ d ∷ cs) = ready_or (find_condition ready (c ∷ d ∷ cs)) c ∷ []

unfoldable pub sanitize_status : ResourceSyncConfigStatus → ResourceSyncConfigStatus
unfolding truncate_error_message only_ready
sanitize_status status = record status {
  sync_errors =
      if ltb max_sync_errors_count status.sync_errors
      then max_sync_errors_count
      else status.sync_errors;
  last_error = truncate_error_message status.last_error;
  conditions = only_ready status.conditions;
}

unfoldable pub config_key : Text → Text → Text
config_key namespace name = namespace ++ b'/' ∷ name

abbrev pair_or : List Text → Text → Text × Text
pair_or (namespace ∷ name ∷ []) key = (namespace, name)
pair_or _ key = ([], key)

unfoldable pub parse_config_key : Text → Text × Text
unfolding split_n
parse_config_key key = pair_or (split_n b'/' key 2) key

-- The failures in a row, and when the last one was.
pub record Failures : Type 0 where
  pub count : ℕ
  pub last : ℕ

unfoldable pub in_backoff : ℕ → Option Failures → Bool
in_backoff now none = false
in_backoff now (some f) = ltb 0 f.count && ltb (now - f.last) status_update_backoff_duration

pub data Answer : Type 0 where
  accepted conflict refused : Answer

-- What a writer meets: the time of its first look at the clock, the config it fetches, `none` for an error,
-- the answer to its write, and the time after it.
pub record WriteWorld : Type 0 where
  pub now : ℕ
  pub fresh : Option ResourceSyncConfigStatus
  pub answer : Answer
  pub later : ℕ

abbrev failed_at : ℕ → Option Failures → Option Failures
failed_at now none = none
failed_at now (some f) = some (record { count = suc f.count; last = now })

abbrev succeeded : Option Failures → Option Failures
succeeded none = none
succeeded (some f) = some (record f { count = 0 })

-- What becomes of the failures.
abbrev pub settled : Bool → ℕ → Answer → Option Failures → Option Failures
settled ignores_conflict now accepted failures = succeeded failures
settled ignores_conflict now refused failures = failed_at now failures
settled ignores_conflict now conflict failures =
    if ignores_conflict then failures else failed_at now failures

pub record Written : Type 0 where
  pub sent : Option ResourceSyncConfigStatus
  pub failures : Option Failures

-- The frame that the writers share: the backoff, the fetch, a change, the bounds, and the write.
unfoldable pub write_status :
    Bool
    → (ResourceSyncConfigStatus → ResourceSyncConfigStatus)
    → WriteWorld
    → Option Failures
    → Written
unfolding in_backoff sanitize_status
write_status ignores_conflict change world failures =
    if in_backoff world.now failures
    then record { sent = none; failures = failures }
    else elim world.fresh [
      | none ↦ record { sent = none; failures = failures }
      | some fresh ↦ record {
        sent = some (sanitize_status (change fresh));
        failures = settled ignores_conflict world.later world.answer failures;
      }
    ]

count_sync_error : ResourceSyncConfigStatus → ResourceSyncConfigStatus
unfolding increment_sync_errors
count_sync_error status = record status { sync_errors = increment_sync_errors status.sync_errors }

unfoldable pub update_sync_error_count : WriteWorld → Option Failures → Written
unfolding write_status count_sync_error
update_sync_error_count world failures = write_status true count_sync_error world failures

-- `fmt.Sprintf("Watching %d resource types", …)` is a parameter.
ready_condition : (ℕ → Text) → Bool → ℕ → Text → ℕ → Condition
unfolding truncate_error_message
ready_condition watching active watched last_error now =
    if active
    then record {
      type = ready;
      status = true;
      last_transition_time = now;
      reason = codes "WatcherActive";
      message = watching watched;
    }
    else if is_empty last_error
    then record {
      type = ready;
      status = false;
      last_transition_time = now;
      reason = codes "WatcherInactive";
      message = codes "Resource watcher is not running";
    }
    else record {
      type = ready;
      status = false;
      last_transition_time = now;
      reason = codes "WatcherError";
      message = truncate_error_message last_error;
    }

-- The later of the flush and the sync before; 0 is no flush.
abbrev later_sync : ℕ → Option ℕ → Option ℕ
later_sync zero before = before
later_sync (suc flush) none = some (suc flush)
later_sync (suc flush) (some before) =
    if ltb before (suc flush) then some (suc flush) else some before

show_watcher :
    (ℕ → Text) → Bool → ℕ → Text → ℕ → ℕ → ResourceSyncConfigStatus → ResourceSyncConfigStatus
unfolding truncate_error_message ready_condition put_condition
show_watcher watching active watched last_error last_flush now status = record status {
  active = active;
  watched_resource_types = watched;
  last_error = truncate_error_message last_error;
  last_sync_time = later_sync last_flush status.last_sync_time;
  conditions =
      put_condition (ready_condition watching active watched last_error now) status.conditions;
}

unfoldable pub update_status :
    (ℕ → Text) → Bool → ℕ → Text → ℕ → WriteWorld → Option Failures → Written
unfolding write_status show_watcher
update_status watching active watched last_error last_flush world failures =
    write_status false (show_watcher watching active watched last_error last_flush world.now) world
      failures
