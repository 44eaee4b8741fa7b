-- ===== src/Secret.antt =====
-- The reading of a value from a Kubernetes Secret: `getSecretValue` of
-- internal/controller/gitknowledgesource_controller.go, and the like in the clients of the MCP server. The API
-- is a parameter.
use dot_ai_controller.Prelude.{
  Option, none, some, ◌++◌, Text, codes, is_empty, text_eq, if◌then◌else◌, Result, ok, err, wrap,
}
use dot_ai_controller.Prelude.Map.{Map, lookup}

pub data SecretFetch : Type 0 where
  fetched : Map Text Text → SecretFetch
  missing : SecretFetch
  fetch_failed : Text → SecretFetch

abbrev quoted : Text → Text
quoted s = codes "'" ++ s ++ codes "'"

value_of : Text → Text → Text → Option Text → Result Text
value_of label name key none =
    err (label ++ codes " " ++ quoted name ++ codes " does not contain key " ++ quoted key)
value_of label name key (some value) =
    if is_empty value
    then err (label ++ codes " " ++ quoted name ++ codes " key " ++ quoted key ++ codes " is empty")
    else ok value

-- `label` is how the messages call the Secret.
unfoldable pub secret_value : Text → SecretFetch → Text → Text → Text → Result Text
unfolding value_of
secret_value label missing namespace name key =
    err (label ++ codes " " ++ quoted name ++ codes " not found in namespace " ++ quoted namespace)
secret_value label (fetch_failed e) namespace name key =
    err (wrap (codes "failed to fetch " ++ label) e)
secret_value label (fetched values) namespace name key = value_of label name key (lookup key values)
