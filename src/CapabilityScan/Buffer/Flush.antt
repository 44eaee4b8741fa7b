-- ===== src/CapabilityScan/Buffer/Flush.antt =====
-- capabilityscan_debounce.go, `flush`: what is sent, and the error that is reported.
use dot_ai_controller.Prelude.{
  map, ap, ◌++◌, ◌≡◌, refl, ◌∙◌, ◌↔◌, true, Option, none, some, List, [], ◌∷◌, Text, In, text_eq,
  nat_eq, ◌==◌, if◌then◌else◌, length, join, arith,
}
use dot_ai_controller.Prelude.Map.{lookup}
use dot_ai_controller.CapabilityScan.Buffer.{
  Set, ScanBuffer, ScanClient, Flushed, new_buffer, contains, first_error, delete_all, ids, comma,
  flush, scan_all, send_all, Request, scan_request, delete_request,
}

-- The ids that a loop over a set visits are those that it contains.
ids-In : (id : Text) (s : Set) → In id (ids s) ↔ (contains id s ≡ true)
unfolding ids contains lookup
ids-In id [] = ground arith
ids-In id ((j, u) ∷ s) = ground (arith, ids-In id s)

-- The first error of a list of results.
abbrev pub first_of_all : List (Option Text) → Option Text
first_of_all [] = none
first_of_all (e ∷ l) = first_error e (first_of_all l)

abbrev pub results : (Text → Option Text) → List Text → List (Option Text)
results del [] = []
results del (id ∷ l) = del id ∷ results del l

first_error_assoc :
    (a b c : Option Text) → first_error (first_error a b) c ≡ first_error a (first_error b c)
first_error_assoc none b c = refl
first_error_assoc (some e) b c = refl

delete_all_lem :
    (del : Text → Option Text) (err : Option Text) (l : List Text)
    → delete_all del err l ≡ (map delete_request l, first_error err (first_of_all (results del l)))
unfolding delete_all
delete_all_lem del none [] = refl
delete_all_lem del (some e) [] = refl
delete_all_lem del err (id ∷ l) =
    let e = delete_all_lem del (first_error err (del id)) l in
    ap (λ (r : List Request × Option Text). (delete_request id ∷ r.0, r.1)) e
    ∙ ap (λ (x : Option Text). (delete_request id ∷ map delete_request l, x))
        (first_error_assoc err (del id) (first_of_all (results del l)))

-- The requests and the error of the scan.
abbrev scan_part : ScanClient → List Text → List Request × Option Text
scan_part client scans =
    if length scans == 0
    then ([], none)
    else (scan_request (join comma scans) ∷ [], client.trigger_scan (join comma scans))

scan_requests :
    (client : ScanClient) (scans : List Text)
    → (scan_part client scans).0
      ≡ (if length scans == 0 then [] else scan_request (join comma scans) ∷ [])
scan_requests client scans = ground arith

scan_error :
    (client : ScanClient) (scans : List Text)
    → (scan_part client scans).1
      ≡ (if length scans == 0 then none else client.trigger_scan (join comma scans))
scan_error client scans = ground arith

flush_parts :
    (client : ScanClient) (b : ScanBuffer) (f : Flushed)
    → (flush (some client) b).0 ≡ some f
    → ((flush (some client) b).1 ≡ new_buffer)
      × (f.scans ≡ ids b.pending_scans)
      × (f.deletes ≡ ids b.pending_deletes)
      × (f.requests
          ≡ (scan_part client f.scans).0
            ++ (delete_all client.delete_capability (scan_part client f.scans).1 f.deletes).0)
      × (f.error ≡ (delete_all client.delete_capability (scan_part client f.scans).1 f.deletes).1)
unfolding flush send_all scan_all
flush_parts client b f h = ground arith

-- A flush of a buffer in which something is pending empties it, and tells the callback the scans and
-- the deletes, which are exactly the ids of the two sets. With a client it requests one scan of all the
-- scans, if there are any, and then, whatever the scan's answer is, a delete for each of the deletes; the
-- error is the first of the scan's and the deletes'. Nothing is put back in the buffer, whatever failed.
pub flush-exact :
    (client : ScanClient) (b : ScanBuffer) (f : Flushed)
    → (flush (some client) b).0 ≡ some f
    → ((flush (some client) b).1 ≡ new_buffer)
      × ((id : Text) → In id f.scans ↔ (contains id b.pending_scans ≡ true))
      × ((id : Text) → In id f.deletes ↔ (contains id b.pending_deletes ≡ true))
      × (f.requests
          ≡ (if length f.scans == 0 then [] else scan_request (join comma f.scans) ∷ [])
            ++ map delete_request f.deletes)
      × (f.error
          ≡ first_error
              (if length f.scans == 0 then none else client.trigger_scan (join comma f.scans))
              (first_of_all (results client.delete_capability f.deletes)))
flush-exact client b f h =
    let (emptied, scans, deletes, requests, error) = flush_parts client b f h in
    let all = delete_all_lem client.delete_capability (scan_part client f.scans).1 f.deletes in
    (
      emptied,
      (λ id. rw scans (ids-In id b.pending_scans)),
      (λ id. rw deletes (ids-In id b.pending_deletes)),
      (requests
          ∙ ap (λ (r : List Request × Option Text). (scan_part client f.scans).0 ++ r.0) all
          ∙ ap (λ (r : List Request). r ++ map delete_request f.deletes)
              (scan_requests client f.scans)),
      (error
          ∙ ap (λ (r : List Request × Option Text). r.1) all
          ∙ ap
              (λ (e : Option Text).
                first_error e (first_of_all (results client.delete_capability f.deletes)))
              (scan_error client f.scans)),
    )
