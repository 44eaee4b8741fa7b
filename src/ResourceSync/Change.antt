-- ===== src/ResourceSync/Change.antt =====
-- resourcesync_controller.go: what is extracted of a watched object, and the change that is queued.
-- An unstructured object is what its accessors return: a nil map of labels is `none`.
use dot_ai_controller.Prelude.{
  ℕ, Bool, true, false, not, ◌&&◌, ◌||◌, Option, none, some, [], ◌∷◌, ◌++◌, Text, codes, is_empty,
  has_prefix, has_suffix, text_eq, ◌==◌, nat_eq, if◌then◌else◌, length,
}
use dot_ai_controller.Prelude.Map.{Map, lookup, retain}

pub record Object : Type 0 where
  pub namespace : Text
  pub name : Text
  pub kind : Text
  pub api_version : Text
  pub labels : Option (Map Text Text)
  pub annotations : Map Text Text
  pub created_at : ℕ

pub record ResourceData : Type 0 where
  pub namespace : Text
  pub name : Text
  pub kind : Text
  pub api_version : Text
  pub labels : Map Text Text
  pub annotations : Map Text Text
  pub created_at : ℕ
  pub updated_at : ℕ

pub record ResourceIdentifier : Type 0 where
  pub namespace : Text
  pub name : Text
  pub kind : Text
  pub api_version : Text

pub data ChangeAction : Type 0 where
  upsert delete : ChangeAction

pub record ResourceChange : Type 0 where
  pub action : ChangeAction
  pub payload : Option ResourceData
  pub id : Text
  pub delete_identifier : Option ResourceIdentifier

abbrev pub colon : ℕ
colon = b':'

abbrev pub cluster_scope_namespace : Text
cluster_scope_namespace = codes "_cluster"

-- A cluster-scoped object has the empty namespace.
unfoldable pub scope_of : Object → Text
scope_of obj = if is_empty obj.namespace then cluster_scope_namespace else obj.namespace

unfoldable pub build_resource_id : Object → Text
unfolding scope_of
build_resource_id obj =
    scope_of obj ++ colon ∷ obj.api_version ++ colon ∷ obj.kind ++ colon ∷ obj.name

abbrev pub copy_labels : Option (Map Text Text) → Map Text Text
copy_labels none = []
copy_labels (some m) = m

unfoldable pub is_description : Text → Text → Bool
unfolding has_prefix has_suffix
is_description k v =
    not (k == codes "kubectl.kubernetes.io/last-applied-configuration")
    && not (has_prefix k (codes "meta.helm.sh/"))
    && (k == codes "description" || has_suffix k (codes "/description"))

unfoldable pub extract_resource_data : ℕ → Object → ResourceData
unfolding scope_of is_description retain
extract_resource_data now obj = record {
  namespace = scope_of obj;
  name = obj.name;
  kind = obj.kind;
  api_version = obj.api_version;
  labels = copy_labels obj.labels;
  annotations = retain is_description obj.annotations;
  created_at = obj.created_at;
  updated_at = now;
}

-- reflect.DeepEqual on two maps: as many keys, and at each key the same value.
agrees : Option Text → Text → Bool
agrees none v = false
agrees (some w) v = w == v

all_agree : Map Text Text → Map Text Text → Bool
unfolding agrees lookup
all_agree [] m = true
all_agree ((k, v) ∷ l) m = agrees (lookup k m) v && all_agree l m

unfoldable pub deep_equal : Option (Map Text Text) → Option (Map Text Text) → Bool
unfolding all_agree
deep_equal none none = true
deep_equal (some l) (some m) = length l == length m && all_agree l m
deep_equal _ _ = false

unfoldable pub has_relevant_changes : Object → Object → Bool
unfolding deep_equal
has_relevant_changes old new = not (deep_equal old.labels new.labels)

-- The change that the add and update handlers queue.
unfoldable pub upsert_change : ℕ → Object → ResourceChange
unfolding extract_resource_data build_resource_id
upsert_change now obj = record {
  action = upsert;
  payload = some (extract_resource_data now obj);
  id = build_resource_id obj;
  delete_identifier = none;
}

-- The change that the delete handler queues.
unfoldable pub delete_change : Object → ResourceChange
unfolding scope_of build_resource_id
delete_change obj = record {
  action = delete;
  payload = none;
  id = build_resource_id obj;
  delete_identifier = some (record {
    namespace = scope_of obj;
    name = obj.name;
    kind = obj.kind;
    api_version = obj.api_version;
  });
}
