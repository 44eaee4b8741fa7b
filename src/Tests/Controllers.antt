-- ===== src/Tests/Controllers.antt =====
-- Runs of the theorems on the status, the queue and the resync of the resource sync, on the capability client,
-- on the backoff and on the shutdown.
use dot_ai_controller.Prelude.{
  if◌then◌else◌, List, ℕ, ◌↔◌, ◌<◌, false, ◌+◌, ◌-◌, ◌*◌, ◌^◌, ◌≤◌, ◌≡◌, refl, true, Option, none,
  some, [], ◌∷◌, Text, codes, ok, arith,
}
use dot_ai_controller.Retry.Backoff.{calculate_backoff, greater64, cap, calculate_backoff-doubles}
use dot_ai_controller.Secret.{missing}
use dot_ai_controller.ResourceSync.Change.{Object, ResourceChange, upsert}
use dot_ai_controller.ResourceSync.Status.{
  sanitize_status, ResourceSyncConfigStatus, Failures, WriteWorld, refused, update_status,
  update_sync_error_count, in_backoff, status_update_backoff_duration, write_status,
}
use dot_ai_controller.ResourceSync.Status.Bounds.{IsSentBounded, update_status-IsBounded}
use dot_ai_controller.ResourceSync.Status.Backoff.{IsFailure, write_status-held_iff}
use dot_ai_controller.ResourceSync.Queue.{
  ChangeQueue, start, check, send, mark, close, Reach, here, next, new_queue, Reach-no_panic,
}
use dot_ai_controller.ResourceSync.Resync.{
  Gvr, crd_gvr, ResyncWorld, skipped, periodic_tick, after_tick,
}
use dot_ai_controller.ResourceSync.Resync.Listed.{periodic_tick-skipped}
use dot_ai_controller.CapabilityScan.Client.{
  ManageOrgDataResponse, AuthSecret, Attempt, response, get_auth_token, get_capability_ids,
  list_capability_ids,
}
use dot_ai_controller.CapabilityScan.Client.Calls.{Answered, list_capability_ids-Answered}
use dot_ai_controller.Shutdown.{Process, new_process, notify, first, marked, OfPlace, Reach-OfPlace}
use dot_ai_controller.Shutdown

calculate_backoff-doubles_example :
    (calculate_backoff (λ b. b + 1) 2 30 3
      ≡ (if greater64 (cap 30 (2 * 2 ^ (3 - 1)) + 1) 30 then 30 else cap 30 (2 * 2 ^ (3 - 1)) + 1))
    × (greater64 (calculate_backoff (λ b. b + 1) 2 30 3) 30 ≡ false)
calculate_backoff-doubles_example =
    calculate_backoff-doubles (λ b. b + 1) 2 30 3 (omega arith) (omega arith)

abbrev status : ResourceSyncConfigStatus
status = record {
  active = true;
  watched_resource_types = 3;
  total_resources_synced = 0;
  last_sync_time = none;
  last_resync_time = none;
  sync_errors = 200000;
  last_error = [];
  conditions = [];
}

abbrev write : WriteWorld
write = record { now = 10; fresh = some status; answer = refused; later = 11 }

update_status-IsBounded_example :
    IsSentBounded (update_status (λ n. []) true 3 (codes "late") 0 write none).sent
    × IsSentBounded (update_sync_error_count write none).sent
update_status-IsBounded_example =
    update_status-IsBounded (λ n. []) true 3 (codes "late") 0 write none

abbrev past : Failures
past = record { count = 0; last = 5 }

abbrev soon_after : WriteWorld
soon_after = record write { now = 50 }

write_status-held_iff_example :
    ((write_status false
        (λ s. s)
        soon_after
        (write_status false (λ s. s) write (some past)).failures).sent
      ≡ none)
    ↔ (IsFailure false refused × (50 < 11 + status_update_backoff_duration))
unfolding write_status in_backoff
write_status-held_iff_example =
    write_status-held_iff false false (λ s. s) (λ s. s) write soon_after past
      (sanitize_status status) status refl (λ h. refl) refl (omega arith)

abbrev quiet : Failures
quiet = record { count = 0; last = 0 }

abbrev tick : ResyncWorld
tick = record { resync = none; informers = []; listed_at = 10; still_active = true; write = write }

abbrev soon : ResyncWorld
soon = record tick { write = record write { now = 60 } }

periodic_tick-skipped_example :
    periodic_tick
      (λ e. [])
      soon
      (after_tick (λ e. []) (some quiet) (periodic_tick (λ e. []) tick (some quiet)))
    ≡ skipped
unfolding in_backoff
periodic_tick-skipped_example =
    periodic_tick-skipped (λ e. []) tick soon quiet status refl refl refl refl refl (omega arith)

abbrev pod : Object
pod = record {
  namespace = codes "n";
  name = codes "p";
  kind = codes "Pod";
  api_version = codes "v1";
  labels = none;
  annotations = [];
  created_at = 3;
}

-- A pod, something else beside it, and an object of the informer of the CRDs.
abbrev informers : List (Gvr × List (Option Object))
informers =
    (record { group = []; version = codes "v1"; resource = codes "pods" }, some pod ∷ none ∷ [])
    ∷ (crd_gvr, some (record pod { kind = codes "CustomResourceDefinition" }) ∷ [])
    ∷ []

abbrev change : ResourceChange
change = record { action = upsert; payload = none; id = codes "x"; delete_identifier = none }

abbrev running : ChangeQueue
running = record new_queue { started = true }

abbrev sent : ChangeQueue
sent = record running { waiting = change ∷ [] }

abbrev stopped : ChangeQueue
stopped = record sent { marked = true; closed = true }

-- A handler sends a change, and the watcher is stopped after it.
sent-Reach : Reach new_queue stopped
sent-Reach =
    next
      (next
        (next (next (next here (start new_queue refl)) (check running change refl refl))
          (send (record running { sending = change ∷ [] }) change [] [] refl refl (omega arith)))
        (mark sent refl refl))
      (close (record sent { marked = true }) refl refl)

Reach-no_panic_example : stopped.panicked ≡ false
unfolding sent-Reach
Reach-no_panic_example = Reach-no_panic {q = stopped} sent-Reach (((((tt, tt), tt), tt), refl), tt)

-- A server that answers with a page that is no JSON.
abbrev ref : AuthSecret
ref = record { namespace = []; name = []; key = [] }

abbrev attempt : Attempt
attempt = record {
  in_wait = none;
  fetch = λ name. missing;
  post = λ request token. response 200 (codes "<html>");
  after = none;
}

abbrev undecoded : Text → Option ManageOrgDataResponse
undecoded body = none

list_capability_ids-Answered_example :
    (k : ℕ) × (token : Text) × (r : ManageOrgDataResponse) × (k ≤ 3)
    × (get_auth_token (λ name. missing) ref ≡ ok token)
    × (r.success ≡ true)
    × (get_capability_ids r ≡ [])
    × Answered (λ n. []) undecoded (response 200 (codes "<html>")) r
unfolding list_capability_ids
list_capability_ids-Answered_example =
    list_capability_ids-Answered (λ n. []) undecoded 3 ref [] (λ n. attempt) [] refl

abbrev signalled_once : Process
signalled_once = record new_process { signals = 1 }

abbrev handled : Process
handled = record new_process { place = Shutdown.signalled }

Reach-OfPlace_example : OfPlace handled.place handled.tracker handled.cancelled
Reach-OfPlace_example = Reach-OfPlace {p = handled} (
    Shutdown.next (Shutdown.next Shutdown.here (notify new_process (omega arith)))
      (first signalled_once 0 refl refl))
