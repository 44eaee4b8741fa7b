-- ===== src/ResourceSync/Handlers.antt =====
-- resourcesync_controller.go: the changes that the handlers of an informer try to queue.
use dot_ai_controller.Prelude.{ℕ, Option, none, some, if◌then◌else◌}
use dot_ai_controller.ResourceSync.Change.{
  Object, ResourceChange, has_relevant_changes, upsert_change, delete_change,
}

-- What an informer hands over: an unstructured object, a cache.DeletedFinalStateUnknown that holds one or
-- something else, or anything else.
pub data Watched : Type 0 where
  unstructured : Object → Watched
  final_state_unknown : Option Object → Watched
  other : Watched

unfoldable pub on_add : ℕ → Watched → Option ResourceChange
unfolding upsert_change
on_add now (unstructured obj) = some (upsert_change now obj)
on_add now (final_state_unknown o) = none
on_add now other = none

updated : ℕ → Object → Watched → Option ResourceChange
unfolding upsert_change has_relevant_changes
updated now old (unstructured new) =
    if has_relevant_changes old new then some (upsert_change now new) else none
updated now old (final_state_unknown o) = none
updated now old other = none

unfoldable pub on_update : ℕ → Watched → Watched → Option ResourceChange
unfolding updated
on_update now (unstructured old) new = updated now old new
on_update now (final_state_unknown o) new = none
on_update now other new = none

unfoldable pub on_delete : Watched → Option ResourceChange
unfolding delete_change
on_delete (unstructured obj) = some (delete_change obj)
on_delete (final_state_unknown (some obj)) = some (delete_change obj)
on_delete (final_state_unknown none) = none
on_delete other = none
