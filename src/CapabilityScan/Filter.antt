-- ===== src/CapabilityScan/Filter.antt =====
-- capabilityscan_controller.go: the include and exclude patterns, and the difference between the
-- cluster's resources and the server's capabilities.
pub mod Groups
pub mod Patterns
pub mod Diff
use dot_ai_controller.Prelude.{
  ℕ, Bool, true, false, not, ◌&&◌, ◌||◌, List, [], ◌∷◌, Text, codes, text_eq, ◌==◌, if◌then◌else◌,
  has_prefix, has_suffix, split_n, keep, any_of, ltb, length,
}

abbrev pub dot : ℕ
dot = b'.'

abbrev pub star : Text
star = codes "*"

-- `pattern[1:]`
abbrev pub tail : Text → Text
tail [] = []
tail (c ∷ s) = s

unfoldable pub matches_group_pattern : Text → Text → Bool
matches_group_pattern group pattern =
    if pattern == star
    then true
    else if pattern == group
    then true
    else if has_prefix pattern (codes "*.")
    then has_suffix group (tail pattern)
    else has_suffix group (dot ∷ pattern)

-- What is compared once both are split at the first dot.
match_parts : List Text → List Text → Bool
unfolding matches_group_pattern
match_parts (k ∷ []) (p ∷ []) = p == star || p == k
match_parts (k ∷ g ∷ []) (p ∷ q ∷ []) =
    (p == star || p == k) && (q == star || matches_group_pattern g q)
match_parts resource pattern = false

unfoldable pub matches_pattern : Text → Text → Bool
unfolding match_parts split_n
matches_pattern resource_id pattern =
    if resource_id == pattern
    then true
    else if pattern == star
    then true
    else match_parts (split_n dot resource_id 2) (split_n dot pattern 2)

unfoldable pub should_process_resource : List Text → List Text → Text → Bool
should_process_resource include exclude id =
    if ltb 0 (length include) && not (any_of (matches_pattern id) include)
    then false
    else not (any_of (matches_pattern id) exclude)

-- A list that was put into a Go set.
abbrev pub list_contains : Text → List Text → Bool
list_contains id = any_of (λ x. x == id)

pub record CapabilityDiff : Type 0 where
  pub to_scan : List Text
  pub to_delete : List Text

unfoldable pub compute_capability_diff : List Text → List Text → CapabilityDiff
compute_capability_diff cluster mcp = record {
  to_scan = keep (λ id. not (list_contains id mcp)) cluster;
  to_delete = keep (λ id. not (list_contains id cluster)) mcp;
}
