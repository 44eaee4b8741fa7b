-- ===== src/ResourceSync/Debounce/Batch.antt =====
-- resourcesync_debounce.go, `flush`: what is collected of the pending changes.
use dot_ai_controller.Prelude.{
  ◌≡◌, refl, ◌↔◌, ◌⊎◌, inl, inr, Bool, none, some, [], ◌∷◌, Text, In, is_some, text_dec, text_eq,
  if◌then◌else◌, arith,
}
use dot_ai_controller.Prelude.Map.{lookup, retain, Distinct, lookup-retain, keep_if}
use dot_ai_controller.ResourceSync.Change.{
  ResourceData, ResourceIdentifier, ResourceChange, ChangeAction, upsert, delete,
}
use dot_ai_controller.ResourceSync.Debounce.{Changes, Collected, collect_one, collect}

can_send : ChangeAction → ResourceChange → Bool
can_send delete c = is_some c.delete_identifier
can_send upsert c = is_some c.payload

-- Whether a change has what its action sends: an identifier for a delete, the data for an upsert.
unfoldable pub sendable : Text → ResourceChange → Bool
unfolding can_send
sendable id c = can_send c.action c

requeue-step :
    (a : ChangeAction) (id : Text) (c : ResourceChange) (l : Collected)
    → (collect_one a id c l).to_requeue
      ≡ (if can_send a c then (id, c) ∷ l.to_requeue else l.to_requeue)
unfolding collect_one can_send
requeue-step delete id c l = ground arith
requeue-step upsert id c l = ground arith

-- What may be requeued is what can be sent.
pub collect-to_requeue : (m : Changes) → (collect m).to_requeue ≡ retain sendable m
unfolding collect retain sendable
collect-to_requeue [] = refl
collect-to_requeue ((id, c) ∷ m) =
    ground (arith, requeue-step c.action id c (collect m), collect-to_requeue m)

pub lookup-to_requeue :
    (m : Changes) (id : Text)
    → Distinct m
    → lookup id (collect m).to_requeue ≡ keep_if sendable id (lookup id m)
lookup-to_requeue m id d = rw (collect-to_requeue m) (lookup-retain sendable id m d)

-- The data of a pending change that can be sent as an upsert.
abbrev pub IsUpsertOf : ResourceData → ResourceChange → Type 0
IsUpsertOf d c = (c.action ≡ upsert) × (c.payload ≡ some d)

abbrev pub IsDeleteOf : ResourceIdentifier → ResourceChange → Type 0
IsDeleteOf i c = (c.action ≡ delete) × (c.delete_identifier ≡ some i)

upserts-step :
    (a : ChangeAction) (id : Text) (c : ResourceChange) (l : Collected) (d : ResourceData)
    → In d (collect_one a id c l).upserts
    → (((a ≡ upsert) × (c.payload ≡ some d)) ⊎ In d l.upserts)
unfolding collect_one
upserts-step a id c l d h = ground arith

upserts-step_conv :
    (a : ChangeAction) (id : Text) (c : ResourceChange) (l : Collected) (d : ResourceData)
    → ((a ≡ upsert) × (c.payload ≡ some d)) ⊎ In d l.upserts
    → In d (collect_one a id c l).upserts
unfolding collect_one
upserts-step_conv a id c l d h = ground arith

deletes-step :
    (a : ChangeAction) (id : Text) (c : ResourceChange) (l : Collected) (d : ResourceIdentifier)
    → In d (collect_one a id c l).deletes
    → (((a ≡ delete) × (c.delete_identifier ≡ some d)) ⊎ In d l.deletes)
unfolding collect_one
deletes-step a id c l d h = ground arith

deletes-step_conv :
    (a : ChangeAction) (id : Text) (c : ResourceChange) (l : Collected) (d : ResourceIdentifier)
    → ((a ≡ delete) × (c.delete_identifier ≡ some d)) ⊎ In d l.deletes
    → In d (collect_one a id c l).deletes
unfolding collect_one
deletes-step_conv a id c l d h = ground arith

module _ (P : ResourceChange → Type 0) where
  -- Some pending change has the property.
  abbrev pub Pending : Changes → Type 0
  Pending m = (id : Text) × (c : ResourceChange) × (lookup id m ≡ some c) × P c

  pub Pending-head : (id : Text) (c : ResourceChange) (m : Changes) → P c → Pending ((id, c) ∷ m)
  unfolding lookup
  Pending-head id c m p = (id, c, ground arith, p)

  pub Pending-tail :
      (id : Text) (c : ResourceChange) (m : Changes)
      → lookup id m ≡ none
      → Pending m
      → Pending ((id, c) ∷ m)
  unfolding lookup
  Pending-tail id c m fresh (j, d, at, p) = (j, d, ground arith, p)

  pub Pending-cons :
      (id : Text) (c : ResourceChange) (m : Changes) → Pending ((id, c) ∷ m) → P c ⊎ Pending m
  unfolding lookup
  Pending-cons id c m (j, d, at, p) = elim (text_dec id j) [
    | yes e ↦ let same : d ≡ c = ground arith in inl (rw (← same) p)
    | no n ↦ inr (j, d, ground arith, p)
  ]

pub upserts_sound :
    (m : Changes) (d : ResourceData)
    → Distinct m
    → In d (collect m).upserts
    → Pending (IsUpsertOf d) m
unfolding collect
upserts_sound [] d u h = elim h [ ]
upserts_sound ((id, c) ∷ m) d u h = elim (upserts-step c.action id c (collect m) d h) [
  | inl here ↦ Pending-head (IsUpsertOf d) id c m here
  | inr there ↦ Pending-tail (IsUpsertOf d) id c m u.0 (upserts_sound m d u.1 there)
]

pub upserts_complete :
    (m : Changes) (d : ResourceData) → Pending (IsUpsertOf d) m → In d (collect m).upserts
unfolding collect lookup
upserts_complete [] d (j, c, at, p) = ground arith
upserts_complete ((id, c) ∷ m) d h =
    upserts-step_conv c.action id c (collect m) d (elim (Pending-cons (IsUpsertOf d) id c m h) [
      | inl here ↦ inl here
      | inr there ↦ inr (upserts_complete m d there)
    ])

pub deletes_sound :
    (m : Changes) (i : ResourceIdentifier)
    → Distinct m
    → In i (collect m).deletes
    → Pending (IsDeleteOf i) m
unfolding collect
deletes_sound [] d u h = elim h [ ]
deletes_sound ((id, c) ∷ m) d u h = elim (deletes-step c.action id c (collect m) d h) [
  | inl here ↦ Pending-head (IsDeleteOf d) id c m here
  | inr there ↦ Pending-tail (IsDeleteOf d) id c m u.0 (deletes_sound m d u.1 there)
]

pub deletes_complete :
    (m : Changes) (i : ResourceIdentifier) → Pending (IsDeleteOf i) m → In i (collect m).deletes
unfolding collect lookup
deletes_complete [] d (j, c, at, p) = ground arith
deletes_complete ((id, c) ∷ m) d h =
    deletes-step_conv c.action id c (collect m) d (elim (Pending-cons (IsDeleteOf d) id c m h) [
      | inl here ↦ inl here
      | inr there ↦ inr (deletes_complete m d there)
    ])

-- A flush of a buffer in which no id stands twice sends, as its upserts, the data of exactly the
-- pending upserts that have data, and, as its deletes, the identifiers of exactly the pending
-- deletes that have one.
pub collect-exact :
    (m : Changes)
    → Distinct m
    → ((d : ResourceData) → In d (collect m).upserts ↔ Pending (IsUpsertOf d) m)
      × ((i : ResourceIdentifier) → In i (collect m).deletes ↔ Pending (IsDeleteOf i) m)
collect-exact m u = (
  λ d. (upserts_sound m d u, upserts_complete m d),
  λ i. (deletes_sound m i u, deletes_complete m i),
)
