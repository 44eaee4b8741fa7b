-- ===== src/ResourceSync/Debounce/Loop.antt =====
-- resourcesync_debounce.go, `Run`: what the loop keeps over any signals.
use dot_ai_controller.Prelude.{
  ℕ, ◌≡◌, ap, ◌∙◌, Option-cases, refl, true, Option, none, some, List, [], ◌∷◌, Text, text_eq,
  arith, inl, inr, nat_eq,
}
use dot_ai_controller.Prelude.Map.{lookup, Distinct, keep_if, insert-Distinct}
use dot_ai_controller.ResourceSync.Change.{ResourceData, ResourceIdentifier, ResourceChange}
use dot_ai_controller.ResourceSync.Client.{SyncResponse, SyncError, failure}
use dot_ai_controller.ResourceSync.Debounce.{
  Changes, Collected, DebounceBuffer, SyncClient, Signal, change, tick, collect, is_idle,
  record_change, flush, requeue, requeue_one, run_loop, take_pending, settle,
}
use dot_ai_controller.ResourceSync.Debounce.Batch.{sendable, lookup-to_requeue}
use dot_ai_controller.ResourceSync.Debounce.Flush.{lookup-nil, failed_flush-keeps, flush-sent}
use dot_ai_controller.ResourceSync.Debounce.Latest.{
  or_else, or_else_assoc, last_with_id, lookup-record_change, record_change-Distinct, if_id,
}

-- A client that is down: every request fails.
abbrev pub IsDown : SyncClient → Type 0
IsDown client =
    (u : List ResourceData) (d : List ResourceIdentifier)
    → (e : SyncError) × (r : Option SyncResponse) × (client u d ≡ failure r e)

-- Every tick finds the client down.
abbrev pub AllDown : List Signal → Type 0
AllDown [] = Unit
AllDown (change c ∷ rest) = AllDown rest
AllDown (tick now none ∷ rest) = ⊥
AllDown (tick now (some client) ∷ rest) = IsDown client × AllDown rest

abbrev pub changes_of : List Signal → List (Option ResourceChange)
changes_of [] = []
changes_of (change c ∷ rest) = c ∷ changes_of rest
changes_of (tick now client ∷ rest) = changes_of rest

idle-to_requeue : (m : Changes) → is_idle (collect m) ≡ true → (collect m).to_requeue ≡ []
unfolding collect is_idle
idle-to_requeue [] h = refl
idle-to_requeue ((id, c) ∷ m) h = ground (arith, idle-to_requeue m)

requeue_one-Distinct :
    (o : Option ResourceChange) (id : Text) (c : ResourceChange) (m : Changes)
    → Distinct m
    → Distinct (requeue_one o id c m)
unfolding requeue_one
requeue_one-Distinct none id c m d = insert-Distinct id c m d
requeue_one-Distinct (some n) id c m d = d

requeue-Distinct : (l m : Changes) → Distinct m → Distinct (requeue l m)
unfolding requeue
requeue-Distinct [] m d = d
requeue-Distinct ((id, c) ∷ l) m d =
    requeue-Distinct l _ (requeue_one-Distinct (lookup id m) id c m d)

pub flush-Distinct :
    (client : Option SyncClient) (now : ℕ) (b : DebounceBuffer)
    → Distinct b.changes
    → Distinct (flush client now b).1.changes
unfolding flush
flush-Distinct none now b d = ground arith
flush-Distinct (some client) now b d =
    ground (arith, requeue-Distinct (collect b.changes).to_requeue [])

-- No key stands twice in the buffer, whatever the loop has received.
pub run_loop-Distinct :
    (b : DebounceBuffer) (signals : List Signal)
    → Distinct b.changes
    → Distinct (run_loop b signals).changes
unfolding run_loop
run_loop-Distinct b [] d = d
run_loop-Distinct b (change c ∷ rest) d =
    run_loop-Distinct (record_change b c) rest (record_change-Distinct b c d)
run_loop-Distinct b (tick now client ∷ rest) d =
    run_loop-Distinct (flush client now b).1 rest (flush-Distinct client now b d)

-- What of the pending change can be sent.
abbrev pub unsent : Text → DebounceBuffer → Option ResourceChange
unsent id b = keep_if sendable id (lookup id b.changes)

keep_if_idem :
    (id : Text) (o : Option ResourceChange)
    → keep_if sendable id (keep_if sendable id o) ≡ keep_if sendable id o
keep_if_idem id none = refl
keep_if_idem id (some c) = ground arith

keep_if-or_else :
    (id : Text) (l x y : Option ResourceChange)
    → keep_if sendable id x ≡ keep_if sendable id y
    → keep_if sendable id (or_else l x) ≡ keep_if sendable id (or_else l y)
keep_if-or_else id none x y h = h
keep_if-or_else id (some c) x y h = refl

flush-unsent_sent :
    (client : SyncClient) (now : ℕ) (b : DebounceBuffer) (c : Collected) (id : Text)
    → Distinct b.changes
    → IsDown client
    → (flush (some client) now b).0 ≡ some c
    → unsent id (flush (some client) now b).1 ≡ unsent id b
unfolding collect take_pending settle
flush-unsent_sent client now b c id d down sent =
    let (whole, after) = flush-sent client now b c sent in
    let (e, r, fails) = down c.upserts c.deletes in
    rw (after, fails, whole)
      (ap (keep_if sendable id) (failed_flush-keeps b [] now r e id d).0
        ∙ keep_if_idem id (lookup id b.changes))

flush-unsent-none :
    (client : SyncClient) (now : ℕ) (b : DebounceBuffer) (id : Text)
    → Distinct b.changes
    → (flush (some client) now b).0 ≡ none
    → unsent id (flush (some client) now b).1 ≡ unsent id b
unfolding flush
flush-unsent-none client now b id d quiet =
    ground (arith, idle-to_requeue b.changes, lookup-to_requeue b.changes id d, lookup-nil id)

pub flush-unsent :
    (client : SyncClient) (now : ℕ) (b : DebounceBuffer) (id : Text)
    → Distinct b.changes
    → IsDown client
    → unsent id (flush (some client) now b).1 ≡ unsent id b
flush-unsent client now b id d down = elim (Option-cases (flush (some client) now b).0) [
  | inl quiet ↦ flush-unsent-none client now b id d quiet
  | inr (c, sent) ↦ flush-unsent_sent client now b c id d down sent
]

-- While the server is down nothing is lost: from a buffer in which no id stands twice, whatever the
-- loop has received, with every request of every tick failing, for each id the last change received
-- with that id is pending if it can be sent, and what was pending before, if it can be sent and
-- none was received with the id.
pub down_loop-keeps :
    (b : DebounceBuffer) (signals : List Signal) (id : Text)
    → Distinct b.changes
    → AllDown signals
    → unsent id (run_loop b signals)
      ≡ keep_if sendable id (or_else (last_with_id id (changes_of signals)) (lookup id b.changes))
unfolding run_loop
down_loop-keeps b [] id d h = refl
down_loop-keeps b (change c ∷ rest) id d h =
    down_loop-keeps (record_change b c) rest id (record_change-Distinct b c d) h
    ∙ ap (λ o. keep_if sendable id (or_else (last_with_id id (changes_of rest)) o))
        (lookup-record_change b c id)
    ∙ ap (keep_if sendable id)
        (or_else_assoc (last_with_id id (changes_of rest)) (if_id id c) (lookup id b.changes))
down_loop-keeps b (tick now none ∷ rest) id d h = absurd h
down_loop-keeps b (tick now (some client) ∷ rest) id d h =
    down_loop-keeps (flush (some client) now b).1 rest id (flush-Distinct (some client) now b d) h.1
    ∙ keep_if-or_else id (last_with_id id (changes_of rest)) _ _
        (flush-unsent client now b id d h.0)
