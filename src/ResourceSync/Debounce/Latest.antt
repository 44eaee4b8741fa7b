-- ===== src/ResourceSync/Debounce/Latest.antt =====
-- resourcesync_debounce.go, `record`: the last change of an id wins.
use dot_ai_controller.Prelude.{
  ◌≡◌, refl, Option, none, some, List, [], ◌∷◌, Text, is_empty, text_eq, ◌==◌, if◌then◌else◌, arith,
}
use dot_ai_controller.Prelude.Map.{lookup, lookup-insert, Distinct, insert-Distinct}
use dot_ai_controller.ResourceSync.Change.{ResourceChange}
use dot_ai_controller.ResourceSync.Debounce.{DebounceBuffer, record_change}

-- Changes recorded in order.
abbrev pub record_all : DebounceBuffer → List (Option ResourceChange) → DebounceBuffer
record_all b [] = b
record_all b (c ∷ cs) = record_all (record_change b c) cs

abbrev pub if_id : Text → Option ResourceChange → Option ResourceChange
if_id id none = none
if_id id (some c) = if is_empty c.id then none else if c.id == id then some c else none

abbrev pub or_else : Option ResourceChange → Option ResourceChange → Option ResourceChange
or_else none d = d
or_else (some c) d = some c

-- The last change of a list that has the id, unless the id is empty.
abbrev pub last_with_id : Text → List (Option ResourceChange) → Option ResourceChange
last_with_id id [] = none
last_with_id id (c ∷ cs) = or_else (last_with_id id cs) (if_id id c)

pub lookup-record_change :
    (b : DebounceBuffer) (c : Option ResourceChange) (id : Text)
    → lookup id (record_change b c).changes ≡ or_else (if_id id c) (lookup id b.changes)
unfolding record_change
lookup-record_change b none id = refl
lookup-record_change b (some c) id = ground (arith, lookup-insert c.id id c b.changes)

pub or_else_assoc :
    (a b c : Option ResourceChange) → or_else a (or_else b c) ≡ or_else (or_else a b) c
or_else_assoc none b c = refl
or_else_assoc (some a) b c = refl

-- After any changes, recorded in order into any buffer, what is pending for an id is the last of them
-- that has that id, and what was pending before if none has it. Nil changes and changes with an empty
-- id count for nothing.
pub record_all-last_wins :
    (b : DebounceBuffer) (cs : List (Option ResourceChange)) (id : Text)
    → lookup id (record_all b cs).changes ≡ or_else (last_with_id id cs) (lookup id b.changes)
record_all-last_wins b [] id = refl
record_all-last_wins b (c ∷ cs) id =
    rw (record_all-last_wins (record_change b c) cs id, lookup-record_change b c id)
      (or_else_assoc (last_with_id id cs) (if_id id c) (lookup id b.changes))

pub record_change-Distinct :
    (b : DebounceBuffer) (c : Option ResourceChange)
    → Distinct b.changes
    → Distinct (record_change b c).changes
unfolding record_change
record_change-Distinct b none d = d
record_change-Distinct b (some c) d = ground (arith, insert-Distinct c.id c b.changes)
