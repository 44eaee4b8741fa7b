-- ===== src/ResourceSync/Status/Bounds.antt =====
-- The bounds of what is written of the status of a ResourceSyncConfig.
use dot_ai_controller.Prelude.{
  ℕ, ◌-◌, ◌≤◌, ◌≡◌, refl, sym, ap, ◌∙◌, ==-true, inl, inr, Bool, true, false, Option, none, some,
  List, [], ◌∷◌, Text, codes, has_byte, split_n, split_n-cut, text_eq, ◌==◌, ltb, length, take,
  length-take-le, length-append, Bool-cases, Option-cases, arith,
}
use dot_ai_controller.Status.{Condition, ready, find_condition, put_condition, find-put_condition}
use dot_ai_controller.ResourceSync.Status.{
  ResourceSyncConfigStatus, max_sync_errors_count, max_last_error_length, truncate_error_message,
  only_ready, sanitize_status, config_key, parse_config_key, Failures, in_backoff, WriteWorld,
  write_status, update_status, update_sync_error_count, show_watcher, count_sync_error,
  ready_condition,
}

-- The bounds that keep the object within the limits of etcd.
pub record IsBounded (s : ResourceSyncConfigStatus) : Type 0 where
  pub few_errors : s.sync_errors ≤ max_sync_errors_count
  pub short_error : length s.last_error ≤ max_last_error_length
  pub one_condition : length s.conditions ≤ 1

truncate_error_message-le : (m : Text) → length (truncate_error_message m) ≤ max_last_error_length
unfolding truncate_error_message
truncate_error_message-le m = elim (Bool-cases (ltb max_last_error_length (length m))) [
  | inr e ↦ rw (e, truncate_error_message) (ground arith)
  | inl e ↦
      rw
        (
          e,
          truncate_error_message,
          length-append (take (max_last_error_length - 3) m) (codes "..."),
        )
        (omega (arith, length-take-le (max_last_error_length - 3) m))
]

length-only_ready-le : (cs : List Condition) → length (only_ready cs) ≤ 1
unfolding only_ready
length-only_ready-le [] = omega arith
length-only_ready-le (c ∷ []) = omega arith
length-only_ready-le (c ∷ d ∷ cs) = omega arith

sanitize_status-IsBounded : (s : ResourceSyncConfigStatus) → IsBounded (sanitize_status s)
unfolding sanitize_status
sanitize_status-IsBounded s = record {
  few_errors = ground arith;
  short_error = truncate_error_message-le s.last_error;
  one_condition = length-only_ready-le s.conditions;
}

-- What is sent, if anything is.
abbrev pub IsSentBounded : Option ResourceSyncConfigStatus → Type 0
IsSentBounded none = Unit
IsSentBounded (some s) = IsBounded s

pub write_status-IsBounded :
    (ignores_conflict : Bool) (change : ResourceSyncConfigStatus → ResourceSyncConfigStatus)
    (world : WriteWorld) (failures : Option Failures)
    → IsSentBounded (write_status ignores_conflict change world failures).sent
unfolding write_status
write_status-IsBounded ignores_conflict change world failures =
    elim (Bool-cases (in_backoff world.now failures)) [
      | inl e ↦ rw (e, write_status) tt
      | inr e ↦ elim (Option-cases world.fresh) [
        | inl f ↦ rw (e, f, write_status) tt
        | inr f ↦ rw (e, f.1, write_status) (sanitize_status-IsBounded (change f.0))
      ]
    ]

-- Whatever the fetched status holds, and however long the error is, a status that updateStatus or
-- updateSyncErrorCount sends counts 100000 errors at most, has a last error of 1024 bytes at most, and at most
-- one condition.
pub update_status-IsBounded :
    (watching : ℕ → Text) (active : Bool) (watched : ℕ) (last_error : Text) (last_flush : ℕ)
    (world : WriteWorld) (failures : Option Failures)
    → IsSentBounded
        (update_status watching active watched last_error last_flush world failures).sent
      × IsSentBounded (update_sync_error_count world failures).sent
unfolding update_status update_sync_error_count
update_status-IsBounded watching active watched last_error last_flush world failures = (
  write_status-IsBounded false
      (show_watcher watching active watched last_error last_flush world.now) world failures,
  write_status-IsBounded true count_sync_error world failures,
)

some-injective : {A : Type 0} {a b : A} → some a ≡ some b → a ≡ b
some-injective h = cc

put_condition-cons :
    (new : Condition) (cs : List Condition)
    → (c : Condition) × (rest : List Condition) × (put_condition new cs ≡ c ∷ rest)
unfolding put_condition
put_condition-cons new [] = (new, [], refl)
put_condition-cons new (c ∷ cs) = elim (Bool-cases (c.type == new.type)) [
  | inl e ↦ (new, cs, rw e refl)
  | inr e ↦ (c, put_condition new cs, rw e refl)
]

only_ready-found :
    (c new : Condition) (rest : List Condition)
    → find_condition ready (c ∷ rest) ≡ some new
    → only_ready (c ∷ rest) ≡ new ∷ []
unfolding only_ready find_condition
only_ready-found c new [] h = elim (Bool-cases (c.type == ready)) [
  | inl e ↦ ap (λ (x : Condition). x ∷ []) (some-injective (rw (e, find_condition) at h))
  | inr e ↦ absurd (cc (rw (e, find_condition) at h))
]
only_ready-found c new (d ∷ rest) h = rw (h, only_ready) refl

only_ready-put :
    (new : Condition) (cs : List Condition)
    → new.type ≡ ready
    → only_ready (put_condition new cs) ≡ new ∷ []
only_ready-put new cs t =
    let (c, rest, e) = put_condition-cons new cs in
    let found : find_condition ready (put_condition new cs) ≡ some new =
      find-put_condition new ready cs ∙ rw (==-true new.type ready t) refl in
    rw e (only_ready-found c new rest (rw e at found))

write_status-sent :
    (ignores_conflict : Bool) (change : ResourceSyncConfigStatus → ResourceSyncConfigStatus)
    (world : WriteWorld) (failures : Option Failures) (s : ResourceSyncConfigStatus)
    → (write_status ignores_conflict change world failures).sent ≡ some s
    → (fresh : ResourceSyncConfigStatus) × (s ≡ sanitize_status (change fresh))
unfolding write_status
write_status-sent ignores_conflict change world failures s h =
    elim (Bool-cases (in_backoff world.now failures)) [
      | inl e ↦ absurd (cc (rw (e, write_status) at h))
      | inr e ↦ elim (Option-cases world.fresh) [
        | inl f ↦ absurd (cc (rw (e, f, write_status) at h))
        | inr f ↦ (f.0, some-injective (sym (rw (e, f.1, write_status) at h)))
      ]
    ]

ready_condition-kind :
    (watching : ℕ → Text) (active : Bool) (watched : ℕ) (last_error : Text) (now : ℕ)
    → ((ready_condition watching active watched last_error now).type ≡ ready)
      × ((ready_condition watching active watched last_error now).status ≡ active)
unfolding ready_condition
ready_condition-kind watching true watched last_error now = (refl, refl)
ready_condition-kind watching false watched [] now = (refl, refl)
ready_condition-kind watching false watched (c ∷ e) now = (refl, refl)

-- A status that updateStatus sends holds one condition, the one that it makes: Ready, true exactly for an active
-- watcher.
pub update_status-condition :
    (watching : ℕ → Text) (active : Bool) (watched : ℕ) (last_error : Text) (last_flush : ℕ)
    (world : WriteWorld) (failures : Option Failures) (s : ResourceSyncConfigStatus)
    → (update_status watching active watched last_error last_flush world failures).sent ≡ some s
    → (c : Condition) × (s.conditions ≡ c ∷ [])
      × (c.type ≡ ready)
      × (c.status ≡ active)
      × (s.active ≡ active)
unfolding update_status show_watcher sanitize_status
update_status-condition watching active watched last_error last_flush world failures s h =
    let (fresh, e) =
      write_status-sent false (show_watcher watching active watched last_error last_flush world.now)
        world failures s h in
    let c = ready_condition watching active watched last_error world.now in
    let (type, status) = ready_condition-kind watching active watched last_error world.now in
    (
      c,
      ap (λ (s : ResourceSyncConfigStatus). s.conditions) e
          ∙ only_ready-put c fresh.conditions type,
      type,
      status,
      ap (λ (s : ResourceSyncConfigStatus). s.active) e,
    )

-- The key of a config is read back into its namespace and name, for a namespace without a slash.
pub parse-config_key :
    (namespace name : Text)
    → has_byte b'/' namespace ≡ false
    → parse_config_key (config_key namespace name) ≡ (namespace, name)
unfolding parse_config_key config_key split_n
parse-config_key namespace name h = rw (split_n-cut b'/' namespace name 0 h) refl
