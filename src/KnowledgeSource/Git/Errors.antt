-- ===== src/KnowledgeSource/Git/Errors.antt =====
-- internal/controller/gitknowledgesource_git.go (`IsRepoNotFoundError`, `IsAuthenticationError`): what the text of
-- an error of Git tells. strings.ToLower is a parameter.
use dot_ai_controller.Prelude.{
  Bool, false, ◌||◌, Option, none, some, List, [], ◌∷◌, Text, codes, contains,
}

abbrev contains_any : Text → List Text → Bool
contains_any s [] = false
contains_any s (p ∷ ps) = contains s p || contains_any s ps

-- The texts of errors that mean a repository that is missing or closed; `none` is no error.
unfoldable pub is_repo_not_found_error : (Text → Text) → Option Text → Bool
unfolding contains
is_repo_not_found_error to_lower none = false
is_repo_not_found_error to_lower (some e) = contains_any (to_lower e) (
    codes "repository not found"
    ∷ codes "not found"
    ∷ codes "authentication required"
    ∷ codes "could not read username"
    ∷ [])

unfoldable pub is_authentication_error : (Text → Text) → Option Text → Bool
unfolding contains
is_authentication_error to_lower none = false
is_authentication_error to_lower (some e) =
    contains_any (to_lower e)
      (codes "authentication" ∷ codes "401" ∷ codes "403" ∷ codes "invalid credentials" ∷ [])
