-- ===== src/KnowledgeSource/Reconcile.antt =====
-- internal/controller/gitknowledgesource_controller.go, `Reconcile` and `handleDeletion`: what is done to the
-- cluster and the MCP server, in the order of the calls. The API, the lock and the timer are parameters.
pub mod Deletion
pub mod Guards
pub mod Quiet
use dot_ai_controller.Prelude.{
  ℕ, ◌*◌, Bool, true, false, not, Option, none, some, List, [], ◌∷◌, ◌++◌, Text, codes, is_empty,
  text_eq, nat_eq, ◌==◌, if◌then◌else◌, trim_suffix, Result, ok, err, map,
}
use dot_ai_controller.KnowledgeSource.Source.{
  GitKnowledgeSource, phase_syncing, set_error_condition,
}
use dot_ai_controller.KnowledgeSource.Document.{source_identifier}
use dot_ai_controller.KnowledgeSource.Client.{DeleteBySourceResponse, Attempt, delete_by_source}
use dot_ai_controller.KnowledgeSource.Sync.{
  SyncHost, Event, ReconcileResult, second, after, get_secret_value,
}
use dot_ai_controller.KnowledgeSource.Sync.Files.{default_mcp_max_retries}
use dot_ai_controller.KnowledgeSource.Sync.Run.{do_sync}

-- What a reconciliation does: an event, a write of the source or of its status, a DELETE request to an URL with
-- a token, a sync, and the removal of the lock.
pub data Action : Type 0 where
  emit : Event → Action
  write_source write_status : GitKnowledgeSource → Action
  send_delete : Text → Text → Action
  sync : Action
  remove_lock : Action

-- The source as the API has it, or that there is none, or another error.
pub data Fetch : Type 0 where
  found : GitKnowledgeSource → Fetch
  not_found : Fetch
  failed : Text → Fetch

-- Beside what a sync needs: the source; the answers to the write of the finalizer, and to the two writes of the
-- status, with `some` error; whether the lock is free; whether the 30 minutes passed; url.PathEscape; what the
-- DELETE request to an URL meets, with a token, and the decoder of its response.
pub record Cluster : Type 0 where
  pub fetch : Fetch
  pub finalizer_write : Option Text
  pub syncing_write : Option Text
  pub status_write : Option Text
  pub lock_free : Bool
  pub timed_out : Bool
  pub path_escape : Text → Text
  pub unmarshal_delete : DeleteBySourceResponse → Text → DeleteBySourceResponse × Option Text
  pub delete : Text → Text → ℕ → Attempt

pub record Reconciled : Type 0 where
  pub result : ReconcileResult
  pub error : Option Text
  pub actions : List Action

abbrev no_requeue : ReconcileResult
no_requeue = record { requeue = false; requeue_after = 0 }

abbrev done_with : ReconcileResult → List Action → Reconciled
done_with result actions = record { result = result; error = none; actions = actions }

abbrev failed_with : Text → List Action → Reconciled
failed_with e actions = record { result = no_requeue; error = some e; actions = actions }

abbrev answer : Option Text → List Action → Reconciled → Reconciled
answer (some e) actions next = failed_with e actions
answer none actions next = next

module _ (host : SyncHost) (cluster : Cluster) where
  pub delete_url : GitKnowledgeSource → Text
  unfolding trim_suffix
  delete_url gks =
      trim_suffix gks.spec.mcp_server.url (codes "/")
      ++ codes "/api/v1/knowledge/source/"
      ++ cluster.path_escape (source_identifier gks.namespace gks.name)

  abbrev cleanup_warning : Text → Action
  cleanup_warning e = emit (record {
    warning = true;
    reason = codes "CleanupWarning";
    message = codes "Could not delete documents from MCP: " ++ e;
  })

  chunks_of : Option DeleteBySourceResponse → ℕ
  chunks_of none = 0
  chunks_of (some r) = elim r.data_found [ none ↦ 0 | some data_found ↦ data_found.chunks_deleted ]

  after_delete : Option DeleteBySourceResponse × Option Text → Action
  unfolding chunks_of
  after_delete (r, some e) = cleanup_warning e
  after_delete (r, none) = emit (record {
    warning = false;
    reason = codes "DocumentsDeleted";
    message =
        codes "Deleted " ++ host.decimal (chunks_of r) ++ codes " chunks from MCP knowledge base";
  })

  delete_documents : GitKnowledgeSource → Result Text → List Action
  unfolding delete_url after_delete delete_by_source
  delete_documents gks (err e) = cleanup_warning e ∷ []
  delete_documents gks (ok token) =
      send_delete (delete_url gks) token
      ∷ after_delete (
          delete_by_source host.decimal cluster.unmarshal_delete default_mcp_max_retries
            (λ url. cluster.delete url token) (delete_url gks))
      ∷ []

  abbrev policy_of : GitKnowledgeSource → Text
  policy_of gks =
      if is_empty gks.spec.deletion_policy then codes "Delete" else gks.spec.deletion_policy

  -- It never returns an error: what goes wrong becomes an event.
  unfoldable pub handle_deletion : GitKnowledgeSource → List Action
  unfolding delete_documents get_secret_value
  handle_deletion gks =
      if policy_of gks == codes "Retain"
      then emit (record {
        warning = false;
        reason = codes "DocumentsRetained";
        message = codes "Documents retained in MCP knowledge base per deletionPolicy";
      })
        ∷ []
      else delete_documents gks
          (get_secret_value host gks.namespace gks.spec.mcp_server.auth_secret_ref)

  abbrev with_finalizer : Bool → GitKnowledgeSource → GitKnowledgeSource
  with_finalizer b gks = record gks { finalizer = b }

  pub reconcile_deletion : GitKnowledgeSource → Reconciled
  unfolding handle_deletion
  reconcile_deletion gks =
      let actions = handle_deletion gks ++ write_source (with_finalizer false gks) ∷ [] in
      if gks.finalizer
      then answer cluster.finalizer_write actions
          (done_with no_requeue (actions ++ remove_lock ∷ []))
      else done_with no_requeue []

  pub reconcile_finalizer : GitKnowledgeSource → Reconciled
  reconcile_finalizer gks =
      answer cluster.finalizer_write (write_source (with_finalizer true gks) ∷ []) (
        done_with (record { requeue = true; requeue_after = 0 })
          (write_source (with_finalizer true gks) ∷ []))

  abbrev syncing : GitKnowledgeSource → GitKnowledgeSource
  syncing gks = record gks { status = record gks.status { phase = phase_syncing } }

  -- The source after a timeout, and the event of it.
  after_timeout : GitKnowledgeSource → GitKnowledgeSource × List Action
  unfolding set_error_condition
  after_timeout gks =
      if cluster.timed_out
      then (
        set_error_condition host.set (codes "SyncTimeout")
            (codes "Sync operation timed out after 30 minutes") gks,
        emit (record {
          warning = true;
          reason = codes "SyncTimeout";
          message = codes "Sync operation timed out";
        })
            ∷ [],
      )
      else (gks, [])

  reconcile_sync : GitKnowledgeSource → Reconciled
  unfolding do_sync after_timeout
  reconcile_sync gks =
      let spec_changed = not (gks.generation == gks.status.observed_generation) in
      let synced = do_sync host spec_changed (syncing gks) in
      let (timed, events) = after_timeout synced.source in
      answer cluster.syncing_write (write_status (syncing gks) ∷ []) (record {
        result = synced.result;
        error = cluster.status_write;
        actions =
            write_status (syncing gks) ∷ sync ∷ map emit synced.events
            ++ events
            ++ write_status timed ∷ [];
      })

  abbrev sync_in_progress_requeue_after : ℕ
  sync_in_progress_requeue_after = 30 * second

  unfoldable pub reconcile_source : GitKnowledgeSource → Reconciled
  unfolding reconcile_deletion reconcile_finalizer reconcile_sync
  reconcile_source gks =
      if gks.deleting
      then reconcile_deletion gks
      else if not gks.finalizer
      then reconcile_finalizer gks
      else if not cluster.lock_free
      then done_with (after sync_in_progress_requeue_after) []
      else reconcile_sync gks

  unfoldable pub reconcile : Reconciled
  unfolding reconcile_source
  reconcile = elim cluster.fetch [
    | found gks ↦ reconcile_source gks
    | not_found ↦ done_with no_requeue []
    | failed e ↦ failed_with e []
  ]
