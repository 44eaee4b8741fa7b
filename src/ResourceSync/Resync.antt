-- ===== src/ResourceSync/Resync.antt =====
-- resourcesync_controller.go: the full syncs, at the start and at every tick, of what the caches of the
-- informers hold. An informer is its resource type and what its cache lists, `none` for an item that is not
-- unstructured; the client, if an endpoint is configured, is what its Resync returns.
pub mod Listed
use dot_ai_controller.Prelude.{
  ℕ, ◌+◌, Bool, true, false, ◌&&◌, Option, none, some, List, [], ◌∷◌, ◌++◌, Text, codes, text_eq,
  nat_eq, ◌==◌, if◌then◌else◌, length,
}
use dot_ai_controller.ResourceSync.Change.{Object, ResourceData, extract_resource_data}
use dot_ai_controller.ResourceSync.Client.{
  Counts, SyncError, Reply, reply, failure, get_error_message,
}
use dot_ai_controller.ResourceSync.Status.{
  ResourceSyncConfigStatus, increment_sync_errors, truncate_error_message, Failures, in_backoff,
  WriteWorld, Written, write_status,
}

pub record Gvr : Type 0 where
  pub group : Text
  pub version : Text
  pub resource : Text

abbrev pub crd_gvr : Gvr
crd_gvr = record {
  group = codes "apiextensions.k8s.io";
  version = codes "v1";
  resource = codes "customresourcedefinitions";
}

unfoldable pub is_crd : Gvr → Bool
is_crd gvr =
    gvr.group == crd_gvr.group && gvr.version == crd_gvr.version && gvr.resource == crd_gvr.resource

extract_all : ℕ → List (Option Object) → List ResourceData
unfolding extract_resource_data
extract_all now [] = []
extract_all now (none ∷ items) = extract_all now items
extract_all now (some obj ∷ items) = extract_resource_data now obj ∷ extract_all now items

unfoldable pub list_all_resources : ℕ → List (Gvr × List (Option Object)) → List ResourceData
unfolding is_crd extract_all
list_all_resources now [] = []
list_all_resources now ((gvr, items) ∷ informers) =
    let rest = list_all_resources now informers in
    if is_crd gvr then rest else extract_all now items ++ rest

-- What the first sync meets: the client, the caches and the time, whether the config is still the active one,
-- and the write.
pub record ResyncWorld : Type 0 where
  pub resync : Option (List ResourceData → Reply)
  pub informers : List (Gvr × List (Option Object))
  pub listed_at : ℕ
  pub still_active : Bool
  pub write : WriteWorld

-- The end of the loop, a tick that is skipped, or one with a resync.
pub data Tick : Type 0 where
  stopped skipped : Tick
  resynced : ℕ × Option Text → Written → Tick

module _ (error_text : SyncError → Text) where
  abbrev resync_error : Reply → Option Text
  resync_error (failure r e) = some (codes "resync failed: " ++ error_text e)
  resync_error (reply r) =
      if r.success then none else some (codes "MCP resync error: " ++ get_error_message r)

  -- How many resources there are, and the error.
  unfoldable pub perform_resync :
      Option (List ResourceData → Reply) → ℕ → List (Gvr × List (Option Object)) → ℕ × Option Text
  unfolding list_all_resources get_error_message
  perform_resync none now informers = (0, none)
  perform_resync (some resync) now informers =
      let resources = list_all_resources now informers in
      if length resources == 0
      then (0, none)
      else (length resources, resync_error (resync resources))

  record_resync : ℕ → ℕ × Option Text → ResourceSyncConfigStatus → ResourceSyncConfigStatus
  unfolding increment_sync_errors truncate_error_message
  record_resync now (count, none) status = record status {
    last_resync_time = some now;
    last_sync_time = some now;
    last_error = [];
    total_resources_synced = count;
  }
  record_resync now (count, some e) status = record status {
    last_resync_time = some now;
    last_sync_time = some now;
    sync_errors = increment_sync_errors status.sync_errors;
    last_error = truncate_error_message e;
  }

  unfoldable pub perform_initial_sync : ResyncWorld → Option Failures → Written
  unfolding perform_resync record_resync write_status
  perform_initial_sync world failures =
      let outcome = perform_resync world.resync world.listed_at world.informers in
      if world.still_active
      then write_status false (record_resync world.write.now outcome) world.write failures
      else record { sent = none; failures = failures }

  -- One tick of the loop.
  unfoldable pub periodic_tick : ResyncWorld → Option Failures → Tick
  unfolding in_backoff perform_resync record_resync write_status
  periodic_tick world failures =
      if world.still_active
      then (if in_backoff world.write.now failures
          then skipped
          else (let outcome = perform_resync world.resync world.listed_at world.informers in
              resynced outcome
                (write_status false (record_resync world.write.now outcome) world.write failures)))
      else stopped

  -- The failures after a tick.
  abbrev pub after_tick : Option Failures → Tick → Option Failures
  after_tick failures stopped = failures
  after_tick failures skipped = failures
  after_tick failures (resynced outcome written) = written.failures

  abbrev ends : Tick → Bool
  ends stopped = true
  ends skipped = false
  ends (resynced outcome written) = false

  -- periodicResyncLoop, on the ticks until the context is done.
  unfoldable pub periodic_resync_loop : List ResyncWorld → Option Failures → List Tick
  unfolding periodic_tick
  periodic_resync_loop [] failures = []
  periodic_resync_loop (world ∷ worlds) failures =
      let tick = periodic_tick world failures in
      let rest = periodic_resync_loop worlds (after_tick failures tick) in
      if ends tick then tick ∷ [] else tick ∷ rest
