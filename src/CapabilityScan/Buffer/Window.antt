-- ===== src/CapabilityScan/Buffer/Window.antt =====
-- capabilityscan_debounce.go, `record`: what is pending after the changes of one window.
use dot_ai_controller.Prelude.{
  ◌≡◌, refl, Bool, true, false, not, ◌&&◌, ◌||◌, Option, none, some, List, [], ◌∷◌, Text, is_empty,
  text_eq, ◌==◌, if◌then◌else◌, arith,
}
use dot_ai_controller.Prelude.Map.{lookup-insert, lookup-delete}
use dot_ai_controller.CapabilityScan.Buffer.{
  CrdChange, ScanBuffer, new_buffer, contains, record_change,
}

abbrev pub record_all : ScanBuffer → List (Option CrdChange) → ScanBuffer
record_all b [] = b
record_all b (c ∷ cs) = record_all (record_change b c) cs

-- Whether a change counts for the id: a delete, or a scan.
abbrev pub is_for : Text → Bool → Option CrdChange → Bool
is_for id kind none = false
is_for id kind (some c) =
    not (is_empty c.resource_id) && c.resource_id == id && (if c.is_delete then kind else not kind)

-- Whether some change of the list does.
abbrev pub some_for : Text → Bool → List (Option CrdChange) → Bool
some_for id kind [] = false
some_for id kind (c ∷ cs) = is_for id kind c || some_for id kind cs

deletes-record_change :
    (b : ScanBuffer) (c : Option CrdChange) (id : Text)
    → contains id (record_change b c).pending_deletes
      ≡ contains id b.pending_deletes || is_for id true c
unfolding record_change contains
deletes-record_change b none id = ground arith
deletes-record_change b (some c) id =
    ground (arith, lookup-insert c.resource_id id tt b.pending_deletes)

scans-record_change :
    (b : ScanBuffer) (c : Option CrdChange) (id : Text)
    → contains id (record_change b c).pending_scans ≡ (
        if is_for id true c
        then false
        else contains id b.pending_scans
          || (is_for id false c && not (contains id b.pending_deletes)))
unfolding record_change contains
scans-record_change b none id = ground arith
scans-record_change b (some c) id = ground (
  arith,
  lookup-insert c.resource_id id tt b.pending_scans,
  lookup-delete c.resource_id id b.pending_scans,
)

-- An id that is to be deleted is not to be scanned.
abbrev pub IsDisjoint : ScanBuffer → Type 0
IsDisjoint b =
    (id : Text) → contains id b.pending_deletes ≡ true → contains id b.pending_scans ≡ false

record_change-IsDisjoint :
    (b : ScanBuffer) (c : Option CrdChange) → IsDisjoint b → IsDisjoint (record_change b c)
record_change-IsDisjoint b c h id =
    ground (arith, h id, deletes-record_change b c id, scans-record_change b c id)

-- What is to be deleted, and what is to be scanned, after any changes are recorded in order into a
-- buffer in which no id is in both sets. An id is to be deleted exactly when it was before or some
-- change deletes it; it is to be scanned exactly when it is not to be deleted and it was to be scanned
-- before or some change scans it. So a delete wins over every scan of its window, the later ones too.
pub record_all-delete_wins :
    (b : ScanBuffer) (cs : List (Option CrdChange)) (id : Text)
    → IsDisjoint b
    → (let after = record_all b cs in
        (contains id after.pending_deletes ≡ contains id b.pending_deletes || some_for id true cs)
        × (contains id after.pending_scans
            ≡ not (contains id after.pending_deletes)
              && (contains id b.pending_scans || some_for id false cs)))
record_all-delete_wins b [] id h = ground (arith, h id)
record_all-delete_wins b (c ∷ cs) id h = ground (
  arith,
  h id,
  record_all-delete_wins (record_change b c) cs id (record_change-IsDisjoint b c h),
  deletes-record_change b c id,
  scans-record_change b c id,
)

pub new_buffer-IsDisjoint : IsDisjoint new_buffer
unfolding contains
new_buffer-IsDisjoint id h = refl
