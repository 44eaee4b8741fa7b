-- ===== src/Tests/Scans.antt =====
-- Runs of the capability scan: its buffer, its patterns, and the reconciliation at startup.
use dot_ai_controller.Prelude.{
  ◌++◌, map, join, ◌≡◌, ◌↔◌, refl, true, false, not, ◌&&◌, none, some, [], ◌∷◌, Text, codes,
  text_dec, text_eq, nat_eq, arith, ℕ_discrete, In,
}
use dot_ai_controller.Prelude.Map.{lookup}
use dot_ai_controller.Status.{find_condition, ready}
use dot_ai_controller.CapabilityScan.Buffer.{
  scan_request, delete_request, comma, CrdChange, ScanBuffer, ScanClient, new_buffer, contains,
  first_error, flush, ids, delete_all,
}
use dot_ai_controller.CapabilityScan.Buffer.Window.{
  record_all, new_buffer-IsDisjoint, record_all-delete_wins,
}
use dot_ai_controller.CapabilityScan.Buffer.Flush.{first_of_all, results, flush-exact}
use dot_ai_controller.CapabilityScan.Filter.{compute_capability_diff}
use dot_ai_controller.CapabilityScan.Filter.Diff.{apply_diff, apply_diff_agrees}
use dot_ai_controller.CapabilityScan.Discovery.{listed}
use dot_ai_controller.CapabilityScan.Startup.{
  ScanStatus, ready_condition, perform_startup_reconciliation, startup-forgets_scan_error,
}

abbrev a : Text
a = codes "A.x.io"

abbrev b : Text
b = codes "B.x.io"

abbrev deleted : CrdChange
deleted = record { resource_id = a; is_delete = true }

abbrev installed : CrdChange
installed = record { resource_id = a; is_delete = false }

-- A client whose scans fail.
abbrev client : ScanClient
client = record { trigger_scan = λ list. some (codes "down"); delete_capability = λ id. none }

abbrev pending : ScanBuffer
pending = record { pending_scans = (b, tt) ∷ []; pending_deletes = (a, tt) ∷ [] }

abbrev status : ScanStatus
status = record { last_error = []; last_scan_time = none; conditions = [] }

record_all-delete_wins_example :
    (let after = record_all new_buffer (some installed ∷ some deleted ∷ some installed ∷ []) in
      (contains a after.pending_deletes ≡ true)
      × (contains a after.pending_scans ≡ not (contains a after.pending_deletes) && true))
unfolding contains lookup text_dec ℕ_discrete
record_all-delete_wins_example =
    record_all-delete_wins new_buffer (some installed ∷ some deleted ∷ some installed ∷ []) a
      new_buffer-IsDisjoint

flush-exact_example :
    ((flush (some client) pending).1 ≡ new_buffer)
    × ((id : Text) → In id (b ∷ []) ↔ (contains id pending.pending_scans ≡ true))
    × ((id : Text) → In id (a ∷ []) ↔ (contains id pending.pending_deletes ≡ true))
    × (scan_request b ∷ delete_request a ∷ []
        ≡ (scan_request (join comma (b ∷ [])) ∷ []) ++ map delete_request (a ∷ []))
    × (some (codes "down")
        ≡ first_error
            (some (codes "down"))
            (first_of_all (results client.delete_capability (a ∷ []))))
unfolding flush ids delete_all join ℕ_discrete
flush-exact_example =
    flush-exact client pending
      (record {
        requests = scan_request b ∷ delete_request a ∷ [];
        scans = b ∷ [];
        deletes = a ∷ [];
        error = some (codes "down");
      })
      refl

apply_diff_agrees_example :
    In a (apply_diff (b ∷ []) (compute_capability_diff (a ∷ []) (b ∷ []))) ↔ In a (a ∷ [])
apply_diff_agrees_example = apply_diff_agrees (a ∷ []) (b ∷ []) a

startup-forgets_scan_error_example :
    (let after =
        (perform_startup_reconciliation
          (record { can_get = true; can_update = true })
          7
          client
          (listed (a ∷ []))
          (listed (b ∷ []))
          status).1 in
      (after.last_error ≡ [])
      × (after.last_scan_time ≡ some 7)
      × (find_condition ready after.conditions ≡ some (ready_condition 7 false (codes "down"))))
unfolding compute_capability_diff text_dec ℕ_discrete
startup-forgets_scan_error_example =
    startup-forgets_scan_error 7 client (a ∷ []) (b ∷ []) status (codes "down") (omega arith) refl
