-- ===== src/CapabilityScan/Buffer.antt =====
-- capabilityscan_debounce.go: the buffer that batches scans and deletes of capabilities. A Go set is a
-- map to Unit.
pub mod Window
pub mod Flush
use dot_ai_controller.Prelude.{
  ℕ, ◌+◌, Bool, true, false, ◌&&◌, Option, none, some, List, [], ◌∷◌, ◌++◌, Text, is_empty, is_some,
  text_eq, nat_eq, ◌==◌, if◌then◌else◌, length, join,
}
use dot_ai_controller.Prelude.Map.{Map, lookup, insert, delete}

abbrev pub Set : Type 0
Set = Map Text (Unit {0})

pub record CrdChange : Type 0 where
  pub resource_id : Text
  pub is_delete : Bool

pub record ScanBuffer : Type 0 where
  pub pending_scans : Set
  pub pending_deletes : Set

abbrev pub new_buffer : ScanBuffer
new_buffer = record { pending_scans = []; pending_deletes = [] }

unfoldable pub contains : Text → Set → Bool
unfolding lookup
contains id s = is_some (lookup id s)

record_kind : Bool → Text → ScanBuffer → ScanBuffer
unfolding insert delete contains
record_kind true id b = record {
  pending_scans = delete id b.pending_scans;
  pending_deletes = insert id tt b.pending_deletes;
}
record_kind false id b =
    if contains id b.pending_deletes
    then b
    else record b { pending_scans = insert id tt b.pending_scans }

-- `record`; a nil change is `none`.
unfoldable pub record_change : ScanBuffer → Option CrdChange → ScanBuffer
unfolding record_kind
record_change b none = b
record_change b (some c) =
    if is_empty c.resource_id then b else record_kind c.is_delete c.resource_id b

-- The MCP client: each call returns nil or an error.
pub record ScanClient : Type 0 where
  pub trigger_scan : Text → Option Text
  pub delete_capability : Text → Option Text

unfoldable pub ids : Set → List Text
ids [] = []
ids ((id, u) ∷ s) = id ∷ ids s

abbrev pub comma : ℕ
comma = b','

-- `if flushErr == nil { flushErr = err }`
abbrev pub first_error : Option Text → Option Text → Option Text
first_error none e = e
first_error (some e) later = some e

-- A request to the server: a scan of a list of ids, or a delete of one.
pub data Request : Type 0 where
  scan_request delete_request : Text → Request

-- The requests of the loop over the deletes, and the first error.
unfoldable pub delete_all :
    (Text → Option Text) → Option Text → List Text → List Request × Option Text
delete_all del err [] = ([], err)
delete_all del err (id ∷ l) =
    let (requests, e) = delete_all del (first_error err (del id)) l in
    (delete_request id ∷ requests, e)

scan_all : ScanClient → List Text → List Request × Option Text
unfolding join
scan_all client scans =
    if length scans == 0
    then ([], none)
    else (scan_request (join comma scans) ∷ [], client.trigger_scan (join comma scans))

send_all : Option ScanClient → List Text → List Text → List Request × Option Text
unfolding scan_all delete_all
send_all none scans deletes = ([], none)
send_all (some client) scans deletes =
    let (requests, e) = scan_all client scans in
    let (more, e) = delete_all client.delete_capability e deletes in (requests ++ more, e)

-- The requests that are made, and what `onFlush` is called with.
pub record Flushed : Type 0 where
  pub requests : List Request
  pub scans : List Text
  pub deletes : List Text
  pub error : Option Text

-- `flush`: what it does, if anything is pending, and the buffer after it.
unfoldable pub flush : Option ScanClient → ScanBuffer → Option Flushed × ScanBuffer
unfolding ids send_all
flush client b =
    if length b.pending_scans == 0 && length b.pending_deletes == 0
    then (none, b)
    else let scans = ids b.pending_scans in
      let deletes = ids b.pending_deletes in
      let (requests, e) = send_all client scans deletes in
      (
        some (record { requests = requests; scans = scans; deletes = deletes; error = e }),
        new_buffer,
      )

unfoldable pub pending_count : ScanBuffer → ℕ
pending_count b = length b.pending_scans + length b.pending_deletes
