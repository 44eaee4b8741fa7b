-- ===== src/CapabilityScan/Startup.antt =====
-- capabilityscan_controller.go: the reconciliation at startup and the status writers. The custom
-- resource's status is a state; `Api` says whether a read and a write of it work, and the writers
-- leave the status as it is if one does not.
use dot_ai_controller.Prelude.{
  ℕ, ◌≡◌, ◌≢◌, refl, ◌⊎◌, inl, inr, ◌++◌, Bool, true, false, ◌&&◌, Option, none, some, List, [],
  ◌∷◌, Text, codes, is_empty, nat_eq, ◌==◌, if◌then◌else◌, ==-true, text_eq, length, join, arith,
}
use dot_ai_controller.Status.{Condition, ready, find_condition, put_condition, find-put_condition}
use dot_ai_controller.CapabilityScan.Buffer.{ScanClient, comma}
use dot_ai_controller.CapabilityScan.Filter.{CapabilityDiff, compute_capability_diff}
use dot_ai_controller.CapabilityScan.Discovery.{Listed, listed, list_failed}

pub record ScanStatus : Type 0 where
  pub last_error : Text
  pub last_scan_time : Option ℕ
  pub conditions : List Condition

pub record Api : Type 0 where
  pub can_get : Bool
  pub can_update : Bool

-- The condition that updateStatus puts.
unfoldable pub ready_condition : ℕ → Bool → Text → Condition
ready_condition now is_ready last_error =
    if is_ready && is_empty last_error
    then record {
      type = ready;
      status = true;
      last_transition_time = now;
      reason = codes "ConfigActive";
      message = codes "CRD watcher is active";
    }
    else record {
      type = ready;
      status = false;
      last_transition_time = now;
      reason = codes "Error";
      message = if is_empty last_error then codes "Configuration error" else last_error;
    }

-- updateStatus, and updateStatusByKey, which reads the resource once more.
unfoldable pub update_status : Api → ℕ → Bool → Text → ScanStatus → ScanStatus
unfolding ready_condition put_condition
update_status api now is_ready last_error s =
    if api.can_get && api.can_update
    then record s {
      last_error = last_error;
      conditions = put_condition (ready_condition now is_ready last_error) s.conditions;
    }
    else s

unfoldable pub update_last_scan_time : Api → ℕ → ScanStatus → ScanStatus
update_last_scan_time api now s =
    if api.can_get && api.can_update
    then record s { last_scan_time = some now; last_error = [] }
    else s

-- What the startup asks of the MCP server.
pub data Call : Type 0 where
  scan delete : Text → Call

abbrev pub deletes_of : List Text → List Call
deletes_of [] = []
deletes_of (id ∷ l) = delete id ∷ deletes_of l

scan_missing : Api → ℕ → ScanClient → List Text → ScanStatus → List Call × ScanStatus
unfolding update_status join
scan_missing api now client to_scan s = if length to_scan == 0 then ([], s) else (
  scan (join comma to_scan) ∷ [],
  elim (client.trigger_scan (join comma to_scan)) [
    | none ↦ s
    | some e ↦ update_status api now false e s
  ],
)

-- Once both lists are there. A failed delete is only logged.
reconcile_diff : Api → ℕ → ScanClient → CapabilityDiff → ScanStatus → List Call × ScanStatus
unfolding scan_missing update_last_scan_time
reconcile_diff api now client d s =
    let (scans, s') = scan_missing api now client d.to_scan s in
    (scans ++ deletes_of d.to_delete, update_last_scan_time api now s')

-- performStartupReconciliation, at the outcomes of listAllResourceIDs and ListCapabilityIDs.
unfoldable pub perform_startup_reconciliation :
    Api → ℕ → ScanClient → Listed → Listed → ScanStatus → List Call × ScanStatus
unfolding reconcile_diff
perform_startup_reconciliation api now client (list_failed e) mcp s =
    ([], update_status api now false e s)
perform_startup_reconciliation api now client (listed cluster) (list_failed e) s =
    ([], update_status api now false e s)
perform_startup_reconciliation api now client (listed cluster) (listed mcp) s =
    reconcile_diff api now client (compute_capability_diff cluster mcp) s

type-ready_condition : (now : ℕ) (b : Bool) (e : Text) → (ready_condition now b e).type ≡ ready
unfolding ready_condition
type-ready_condition now b e = ground arith

written :
    (now : ℕ) (e : Text) (s : ScanStatus)
    → find_condition ready (put_condition (ready_condition now false e) s.conditions)
      ≡ some (ready_condition now false e)
written now e s = rw (
  find-put_condition (ready_condition now false e) ready s.conditions,
  ==-true (ready_condition now false e).type ready (type-ready_condition now false e),
)

-- A startup that cannot list either side asks nothing of the server, least of all a delete, and says
-- why in the last error and in a Ready condition that is false, if the status can be written.
pub startup-failed_list :
    (now : ℕ) (client : ScanClient) (cluster mcp : Listed) (s : ScanStatus) (e : Text)
    → (cluster ≡ list_failed e) ⊎ ((l : List Text) × (cluster ≡ listed l) × (mcp ≡ list_failed e))
    → (let (calls, after) =
          perform_startup_reconciliation
            (record { can_get = true; can_update = true })
            now
            client
            cluster
            mcp
            s in
        (calls ≡ [])
        × (after.last_error ≡ e)
        × (after.last_scan_time ≡ s.last_scan_time)
        × (find_condition ready after.conditions ≡ some (ready_condition now false e)))
unfolding perform_startup_reconciliation
startup-failed_list now client cluster mcp s e (inl h) =
    rw (h, perform_startup_reconciliation) (refl, refl, refl, written now e s)
startup-failed_list now client cluster mcp s e (inr (l, h, k)) =
    rw (h, k, perform_startup_reconciliation) (refl, refl, refl, written now e s)

-- A startup that lists both sides makes these calls: one scan of what is missing, if anything is, and
-- a delete of each orphan, whether or not the scan fails.
pub startup-calls :
    (api : Api) (now : ℕ) (client : ScanClient) (cluster mcp : List Text) (s : ScanStatus)
    → (let d = compute_capability_diff cluster mcp in
        (perform_startup_reconciliation api now client (listed cluster) (listed mcp) s).0 ≡ (
          if length d.to_scan == 0
          then deletes_of d.to_delete
          else scan (join comma d.to_scan) ∷ deletes_of d.to_delete))
unfolding perform_startup_reconciliation
startup-calls api now client cluster mcp s = ground arith

-- The error of a failed scan does not last: with a status that can be written, a startup whose scan
-- fails with `e` ends with an empty last error and a new scan time, although the Ready condition is
-- false with `e` (or a default text, if `e` is empty).
pub startup-forgets_scan_error :
    (now : ℕ) (client : ScanClient) (cluster mcp : List Text) (s : ScanStatus) (e : Text)
    → length (compute_capability_diff cluster mcp).to_scan ≢ 0
    → client.trigger_scan (join comma (compute_capability_diff cluster mcp).to_scan) ≡ some e
    → (let after =
          (perform_startup_reconciliation
            (record { can_get = true; can_update = true })
            now
            client
            (listed cluster)
            (listed mcp)
            s).1 in
        (after.last_error ≡ [])
        × (after.last_scan_time ≡ some now)
        × (find_condition ready after.conditions ≡ some (ready_condition now false e)))
unfolding perform_startup_reconciliation
startup-forgets_scan_error now client cluster mcp s e ne h = ground (arith, written now e s)
