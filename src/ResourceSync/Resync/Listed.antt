-- ===== src/ResourceSync/Resync/Listed.antt =====
-- What a full sync lists, and when a tick is skipped.
use dot_ai_controller.Prelude.{
  ℕ, suc, ◌+◌, ◌<◌, ◌≡◌, refl, true, false, Option, some, List, Text, text_eq, nat_eq, In, arith,
}
use dot_ai_controller.ResourceSync.Change.{Object}
use dot_ai_controller.ResourceSync.Client.{SyncError}
use dot_ai_controller.ResourceSync.Status.{
  ResourceSyncConfigStatus, Failures, refused, in_backoff, write_status,
  status_update_backoff_duration,
}
use dot_ai_controller.ResourceSync.Resync.{
  Gvr, is_crd, ResyncWorld, skipped, periodic_tick, after_tick,
}

-- An object in the cache of an informer that is not the one of the CRDs.
abbrev pub Cached : List (Gvr × List (Option Object)) → Object → Type 0
Cached informers obj =
    (gvr : Gvr) × (items : List (Option Object)) × In (gvr, items) informers
    × (is_crd gvr ≡ false)
    × In (some obj) items

backoff-holds :
    (now last n : ℕ)
    → now < last + status_update_backoff_duration
    → in_backoff now (some (record { count = suc n; last = last })) ≡ true
unfolding in_backoff
backoff-holds now last n lt = ground arith

-- After a tick whose write of the status is refused, a tick within five minutes does not sync at all, though the
-- log of the code calls this a skipped status update.
pub periodic_tick-skipped :
    (error_text : SyncError → Text) (world later : ResyncWorld) (f : Failures)
    (fresh : ResourceSyncConfigStatus)
    → world.still_active ≡ true
    → in_backoff world.write.now (some f) ≡ false
    → world.write.fresh ≡ some fresh
    → world.write.answer ≡ refused
    → later.still_active ≡ true
    → later.write.now < world.write.later + status_update_backoff_duration
    → periodic_tick error_text later
        (after_tick error_text (some f) (periodic_tick error_text world (some f)))
      ≡ skipped
unfolding periodic_tick write_status
periodic_tick-skipped error_text world later f fresh a b e r a' lt =
    let failed : after_tick error_text (some f) (periodic_tick error_text world (some f))
        ≡ some (record { count = suc f.count; last = world.write.later }) =
      rw (a, b, e, r, periodic_tick, write_status) refl in
    rw (failed)
      (rw (a', backoff-holds later.write.now world.write.later f.count lt, periodic_tick) refl)
