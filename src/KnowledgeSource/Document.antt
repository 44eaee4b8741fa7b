-- ===== src/KnowledgeSource/Document.antt =====
-- internal/controller/gitknowledgesource_controller.go: the URI of a document, and the metadata that it is
-- sent with. url.Parse is a parameter.
use dot_ai_controller.Prelude.{
  Option, none, some, [], ◌∷◌, ◌++◌, Text, codes, is_empty, text_eq, if◌then◌else◌, trim_suffix,
}
use dot_ai_controller.Prelude.Map.{Map, insert}

pub record Url : Type 0 where
  pub scheme : Text
  pub host : Text
  pub path : Text

abbrev or_main : Text → Text
or_main branch = if is_empty branch then codes "main" else branch

-- `none` is an error of url.Parse.
abbrev base_of : Text → Option Url → Text
base_of repo_url none = repo_url
base_of repo_url (some u) = u.scheme ++ codes "://" ++ u.host ++ u.path

unfoldable pub build_document_uri : (Text → Option Url) → Text → Text → Text → Text
unfolding trim_suffix
build_document_uri parse repo_url branch file_path =
    let repo = trim_suffix repo_url (codes ".git") in
    base_of repo (parse repo) ++ codes "/blob/" ++ or_main branch ++ codes "/" ++ file_path

copy_metadata : Map Text Text → Map Text Text → Map Text Text
copy_metadata [] made = made
copy_metadata ((k, v) ∷ given) made = copy_metadata given (insert k v made)

abbrev pub source_identifier : Text → Text → Text
source_identifier namespace name = namespace ++ codes "/" ++ name

unfoldable pub build_metadata : Map Text Text → Text → Text → Map Text Text
unfolding copy_metadata
build_metadata given namespace name =
    insert (codes "sourceIdentifier") (source_identifier namespace name) (copy_metadata given [])
