-- ===== src/Remediation/Persistence/Sync.antt =====
-- persistence.go, `Sync`, `syncPolicyConfigMap`, and the final sync of `Stop`. A call returns its error
-- and what it wrote.
pub mod Contents
pub mod Restore
use dot_ai_controller.Prelude.{
  ℕ, ◌+◌, ◌-◌, Bool, not, ◌&&◌, Option, none, some, List, [], ◌∷◌, ◌++◌, Text, text_eq, ltb,
  if◌then◌else◌, split_n,
}
use dot_ai_controller.Prelude.Map.{Map, lookup, insert}
use dot_ai_controller.Remediation.Owner.{slash, Fetched, found, not_found, failed}
use dot_ai_controller.Remediation.Persistence.{
  FullKey, parse_full_key, get_config_map_name, is_policy_persistence_enabled, Policy, Codec, Api,
  Updated, updated, conflict, update_failed, data_key, last_sync_key, version_key, current_version,
}

pub data SyncError : Type 0 where
  get_policy_failed serialize_failed get_config_map_failed owner_reference_failed create_failed
        update_config_map_failed :
      SyncError

pub data Write : Type 0 where
  create_config_map update_config_map : Text → Text → Map Text Text → Write

abbrev pub entries_of : Option (Map Text ℕ) → Map Text ℕ
entries_of none = []
entries_of (some entries) = entries

abbrev pub policy_key : Text → Text → Text
policy_key ns name = ns ++ slash ∷ name

abbrev pub is_persisted : ℕ → ℕ → ℕ → Bool
is_persisted shortest now end = not (ltb end now) && not (ltb (end - now) shortest)

unfoldable pub add_entry : Option FullKey → ℕ → Map Text (Map Text ℕ) → Map Text (Map Text ℕ)
unfolding insert lookup
add_entry none end by_policy = by_policy
add_entry (some k) end by_policy =
    let key = policy_key k.policy_ns k.policy_name in
    insert key (insert k.short_key end (entries_of (lookup key by_policy))) by_policy

unfoldable pub group_by_policy : ℕ → ℕ → Map Text ℕ → Map Text (Map Text ℕ) → Map Text (Map Text ℕ)
unfolding add_entry parse_full_key
group_by_policy shortest now [] by_policy = by_policy
group_by_policy shortest now ((full_key, end) ∷ cooldowns) by_policy =
    group_by_policy shortest now cooldowns (
      if is_persisted shortest now end
      then add_entry (parse_full_key full_key) end by_policy
      else by_policy)

unfoldable pub serializable : Codec → Map Text ℕ → Map Text Text
serializable codec [] = []
serializable codec ((short_key, end) ∷ entries) =
    (short_key, codec.format end) ∷ serializable codec entries

-- The data of a new ConfigMap, and those of one that exists with the three keys set.
abbrev pub new_content : Text → Text → Map Text Text
new_content json stamp =
    (data_key, json) ∷ (last_sync_key, stamp) ∷ (version_key, current_version) ∷ []

unfoldable pub set_content : Text → Text → Map Text Text → Map Text Text
unfolding insert
set_content json stamp old =
    insert version_key current_version (insert last_sync_key stamp (insert data_key json old))

of_update : Text → Text → Map Text Text → Updated → Option SyncError × List Write
of_update ns name content updated = (none, update_config_map ns name content ∷ [])
of_update ns name content conflict = (none, [])
of_update ns name content update_failed = (some update_config_map_failed, [])

put_config_map :
    Api
    → Policy
    → Text
    → Text
    → Text
    → Text
    → Fetched (Map Text Text)
    → Option SyncError × List Write
unfolding of_update set_content
put_config_map api policy ns name json stamp failed = (some get_config_map_failed, [])
put_config_map api policy ns name json stamp not_found =
    if api.set_controller_reference policy
    then if api.create ns name (new_content json stamp)
      then (none, create_config_map ns name (new_content json stamp) ∷ [])
      else (some create_failed, [])
    else (some owner_reference_failed, [])
put_config_map api policy ns name json stamp (found old) =
    let content = set_content json stamp old in
    of_update ns name content (api.update ns name content)

put_json : Codec → Api → Policy → Text → Text → ℕ → Option Text → Option SyncError × List Write
unfolding put_config_map get_config_map_name
put_json codec api policy ns policy_name now none = (some serialize_failed, [])
put_json codec api policy ns policy_name now (some json) =
    let name = get_config_map_name policy_name in
    put_config_map api policy ns name json (codec.format now) (api.get_config_map ns name)

sync_fetched :
    Codec → Api → Text → Text → Map Text ℕ → ℕ → Fetched Policy → Option SyncError × List Write
unfolding put_json serializable is_policy_persistence_enabled
sync_fetched codec api ns policy_name entries now not_found = (none, [])
sync_fetched codec api ns policy_name entries now failed = (some get_policy_failed, [])
sync_fetched codec api ns policy_name entries now (found policy) =
    if is_policy_persistence_enabled policy.persistence
    then put_json codec api policy ns policy_name now (codec.marshal (serializable codec entries))
    else (none, [])

unfoldable pub sync_policy_config_map :
    Codec → Api → Text → Text → Map Text ℕ → ℕ → Option SyncError × List Write
unfolding sync_fetched
sync_policy_config_map codec api ns policy_name entries now =
    sync_fetched codec api ns policy_name entries now (api.get_policy ns policy_name)

abbrev pub first_error : Option SyncError → Option SyncError → Option SyncError
first_error none later = later
first_error (some e) later = some e

sync_split : Codec → Api → List Text → Map Text ℕ → ℕ → Option SyncError × List Write
unfolding sync_policy_config_map
sync_split codec api (ns ∷ name ∷ []) entries now =
    sync_policy_config_map codec api ns name entries now
sync_split codec api (a ∷ b ∷ c ∷ more) entries now = (none, [])
sync_split codec api (a ∷ []) entries now = (none, [])
sync_split codec api [] entries now = (none, [])

unfoldable pub sync_groups : Codec → Api → ℕ → Map Text (Map Text ℕ) → Option SyncError × List Write
unfolding sync_split split_n
sync_groups codec api now [] = (none, [])
sync_groups codec api now ((key, entries) ∷ groups) =
    let this = sync_split codec api (split_n slash key 2) entries now in
    let rest = sync_groups codec api now groups in (first_error this.0 rest.0, this.1 ++ rest.1)

pub record Synced : Type 0 where
  pub error : Option SyncError
  pub writes : List Write
  pub dirty : Map Text (Unit {0})

-- `shortest` is GetMinPersistDuration().
unfoldable pub sync : Codec → Api → ℕ → ℕ → Map Text ℕ → Map Text (Unit {0}) → Synced
unfolding sync_groups group_by_policy
sync codec api shortest now cooldowns [] = record { error = none; writes = []; dirty = [] }
sync codec api shortest now cooldowns (d ∷ dirty) =
    let done = sync_groups codec api now (group_by_policy shortest now cooldowns []) in
    record { error = done.0; writes = done.1; dirty = [] }

unfoldable pub mark_all : Map Text ℕ → Map Text (Unit {0}) → Map Text (Unit {0})
unfolding insert
mark_all [] dirty = dirty
mark_all ((key, end) ∷ cooldowns) dirty = mark_all cooldowns (insert key tt dirty)

-- The final sync of Stop, after the periodic one has ended.
unfoldable pub stop : Codec → Api → ℕ → ℕ → Map Text ℕ → Map Text (Unit {0}) → Synced
unfolding sync mark_all
stop codec api shortest now [] dirty = record { error = none; writes = []; dirty = dirty }
stop codec api shortest now (c ∷ cooldowns) dirty =
    sync codec api shortest now (c ∷ cooldowns) (mark_all (c ∷ cooldowns) dirty)
