-- ===== src/KnowledgeSource/Reconcile/Deletion.antt =====
-- What a reconciliation does, and in which order.
use dot_ai_controller.Prelude.{
  Bool, ◌≡◌, refl, true, false, Option, none, [], ◌∷◌, ◌++◌, Text, codes, text_eq, nat_eq, ◌==◌,
}
use dot_ai_controller.KnowledgeSource.Client.{DeleteBySourceResponse, delete_by_source}
use dot_ai_controller.KnowledgeSource.Sync.Files.{default_mcp_max_retries}
use dot_ai_controller.KnowledgeSource.Source.{GitKnowledgeSource}
use dot_ai_controller.KnowledgeSource.Sync.{SyncHost}
use dot_ai_controller.KnowledgeSource.Reconcile.{
  Action, write_status, sync, emit, write_source, send_delete, remove_lock, found, Cluster,
  delete_url, handle_deletion, reconcile_deletion, reconcile_source, reconcile,
}

abbrev pub reports_deleted : Action → Bool
reports_deleted (emit e) = e.reason == codes "DocumentsDeleted"
reports_deleted (write_source s) = false
reports_deleted (write_status s) = false
reports_deleted (send_delete u t) = false
reports_deleted sync = false
reports_deleted remove_lock = false

module _ (host : SyncHost) (cluster : Cluster) where
  -- The call of DeleteBySource for a source, with a token.
  abbrev pub deletion_call : GitKnowledgeSource → Text → Option DeleteBySourceResponse × Option Text
  deletion_call gks token =
      delete_by_source host.decimal cluster.unmarshal_delete default_mcp_max_retries
        (λ url. cluster.delete url token) (delete_url host cluster gks)

  -- The deletion of a source with the finalizer is never blocked by its policy, its secret or the MCP server: as
  -- long as the API takes the write of the source without the finalizer, it ends without an error, and writes
  -- that and removes the lock after everything else.
  pub reconcile-deletion :
      (gks : GitKnowledgeSource)
      → cluster.fetch ≡ found gks
      → gks.deleting ≡ true
      → gks.finalizer ≡ true
      → cluster.finalizer_write ≡ none
      → ((reconcile host cluster).error ≡ none)
        × ((reconcile host cluster).actions
            ≡ (handle_deletion host cluster gks
                ++ write_source (record gks { finalizer = false }) ∷ [])
              ++ remove_lock ∷ [])
  unfolding reconcile reconcile_source reconcile_deletion
  reconcile-deletion gks f d h w =
      rw (f, d, h, w, reconcile, reconcile_source, reconcile_deletion) (refl, refl)
