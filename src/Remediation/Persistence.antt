-- ===== src/Remediation/Persistence.antt =====
-- persistence.go: the cooldowns that outlive the process, in one ConfigMap for each policy. The API, the
-- JSON of a map of texts and the RFC 3339 form of an instant are arguments; what a call would write is
-- returned.
pub mod Keys
pub mod Sync
pub mod Entries
pub mod Groups
use dot_ai_controller.Prelude.{
  ℕ, ◌+◌, Bool, true, false, Option, none, some, List, [], ◌∷◌, ◌++◌, Text, codes, is_empty,
  text_eq, ltb, ◌==◌, if◌then◌else◌, split_n, join,
}
use dot_ai_controller.Prelude.Map.{Map, lookup, insert}
use dot_ai_controller.Remediation.Owner.{slash, Fetched, found, not_found, failed}

unfoldable pub get_config_map_name : Text → Text
get_config_map_name policy_name = policy_name ++ codes "-cooldown-state"

pub record FullKey : Type 0 where
  pub policy_ns : Text
  pub policy_name : Text
  pub short_key : Text

abbrev of_parts : List Text → Option FullKey
of_parts (ns ∷ name ∷ c ∷ d ∷ rest) =
    some (record { policy_ns = ns; policy_name = name; short_key = join slash (c ∷ d ∷ rest) })
of_parts (a ∷ b ∷ c ∷ []) = none
of_parts (a ∷ b ∷ []) = none
of_parts (a ∷ []) = none
of_parts [] = none

-- `none` is the result that is not ok.
unfoldable pub parse_full_key : Text → Option FullKey
unfolding split_n join
parse_full_key full_key = of_parts (split_n slash full_key 4)

unfoldable pub make_full_key : Text → Text → Text → Text
make_full_key policy_ns policy_name short_key =
    policy_ns ++ slash ∷ (policy_name ++ slash ∷ short_key)

-- `spec.persistence.enabled`, each of the two pointers or nil.
unfoldable pub is_policy_persistence_enabled : Option (Option Bool) → Bool
is_policy_persistence_enabled none = true
is_policy_persistence_enabled (some none) = true
is_policy_persistence_enabled (some (some enabled)) = enabled

pub record Policy : Type 0 where
  pub namespace : Text
  pub name : Text
  pub persistence : Option (Option Bool)

-- encoding/json and the layout time.RFC3339: `none` is an error.
pub record Codec : Type 0 where
  pub marshal : Map Text Text → Option Text
  pub unmarshal : Text → Option (Map Text Text)
  pub format : ℕ → Text
  pub parse : Text → Option ℕ

abbrev pub data_key : Text
data_key = codes "cooldowns"

abbrev pub last_sync_key : Text
last_sync_key = codes "lastSync"

abbrev pub version_key : Text
version_key = codes "version"

abbrev pub current_version : Text
current_version = codes "1"

-- One entry of the ConfigMap, parsed: it is skipped if it has no instant, pruned if that is past.
restore_parsed : Policy → ℕ → Text → Option ℕ → Map Text ℕ → Map Text ℕ
unfolding insert make_full_key
restore_parsed policy now short_key none cooldowns = cooldowns
restore_parsed policy now short_key (some timestamp) cooldowns =
    if ltb timestamp now
    then cooldowns
    else insert (make_full_key policy.namespace policy.name short_key) timestamp cooldowns

unfoldable pub restore : Codec → Policy → ℕ → Map Text Text → Map Text ℕ → Map Text ℕ
unfolding restore_parsed
restore codec policy now [] cooldowns = cooldowns
restore codec policy now ((short_key, stamp) ∷ raw) cooldowns =
    restore codec policy now raw (restore_parsed policy now short_key (codec.parse stamp) cooldowns)

restore_raw : Codec → Policy → ℕ → Option (Map Text Text) → Map Text ℕ → Map Text ℕ
unfolding restore
restore_raw codec policy now none cooldowns = cooldowns
restore_raw codec policy now (some raw) cooldowns = restore codec policy now raw cooldowns

restore_json : Codec → Policy → ℕ → Option Text → Map Text ℕ → Map Text ℕ
unfolding restore_raw
restore_json codec policy now none cooldowns = cooldowns
restore_json codec policy now (some json) cooldowns =
    if is_empty json
    then cooldowns
    else restore_raw codec policy now (codec.unmarshal json) cooldowns

-- A ConfigMap without a version is read.
abbrev other_version : Option Text → Bool
other_version none = false
other_version (some v) = if v == current_version then false else true

unfoldable pub load_data : Codec → Policy → ℕ → Map Text Text → Map Text ℕ → Map Text ℕ
unfolding restore_json lookup
load_data codec policy now content cooldowns =
    if other_version (lookup version_key content)
    then cooldowns
    else restore_json codec policy now (lookup data_key content) cooldowns

pub data Updated : Type 0 where
  updated conflict update_failed : Updated

pub record Api : Type 0 where
  pub list_policies : Option (List Policy)
  pub get_policy : Text → Text → Fetched Policy
  pub get_config_map : Text → Text → Fetched (Map Text Text)
  pub set_controller_reference : Policy → Bool
  pub create : Text → Text → Map Text Text → Bool
  pub update : Text → Text → Map Text Text → Updated

-- The count of what was loaded and pruned is logged only.
load_fetched : Codec → Policy → ℕ → Fetched (Map Text Text) → Map Text ℕ → Map Text ℕ
unfolding load_data
load_fetched codec policy now (found content) cooldowns =
    load_data codec policy now content cooldowns
load_fetched codec policy now not_found cooldowns = cooldowns
load_fetched codec policy now failed cooldowns = cooldowns

unfoldable pub load_policy_state : Codec → Api → Policy → ℕ → Map Text ℕ → Map Text ℕ
unfolding load_fetched get_config_map_name
load_policy_state codec api policy now cooldowns =
    load_fetched codec policy now
      (api.get_config_map policy.namespace (get_config_map_name policy.name)) cooldowns

unfoldable pub load_policies : Codec → Api → ℕ → List Policy → Map Text ℕ → Map Text ℕ
unfolding load_policy_state is_policy_persistence_enabled
load_policies codec api now [] cooldowns = cooldowns
load_policies codec api now (policy ∷ policies) cooldowns = load_policies codec api now policies (
    if is_policy_persistence_enabled policy.persistence
    then load_policy_state codec api policy now cooldowns
    else cooldowns)

load_listed : Codec → Api → ℕ → Option (List Policy) → Map Text ℕ
unfolding load_policies
load_listed codec api now none = []
load_listed codec api now (some policies) = load_policies codec api now policies []

-- Load
unfoldable pub load : Codec → Api → ℕ → Map Text ℕ
unfolding load_listed
load codec api now = load_listed codec api now api.list_policies
