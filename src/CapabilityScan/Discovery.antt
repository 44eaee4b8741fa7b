-- ===== src/CapabilityScan/Discovery.antt =====
-- capabilityscan_controller.go, `listAllResourceIDs`: the ids of the resource types that the Discovery
-- API lists. What the API returns is an argument.
pub mod Exact
use dot_ai_controller.Prelude.{
  ℕ, not, Option, none, some, List, [], ◌∷◌, ◌++◌, Text, codes, is_empty, text_eq, text_dec,
  if◌then◌else◌, has_byte, split,
}
use dot_ai_controller.CapabilityScan.Filter.{dot, list_contains, should_process_resource}

pub record ApiResource : Type 0 where
  pub name : Text
  pub kind : Text

pub record ApiResourceList : Type 0 where
  pub group_version : Text
  pub resources : List ApiResource

-- `ServerGroupsAndResources`: all lists, some of them with the error of unavailable groups, or another
-- error. A nil list is `none`.
pub data Discovered : Type 0 where
  complete partial : List (Option ApiResourceList) → Discovered
  failed : Text → Discovered

pub data Listed : Type 0 where
  listed : List Text → Listed
  list_failed : Text → Listed

abbrev pub slash : ℕ
slash = b'/'

first_of_two : List Text → Text
first_of_two (g ∷ v ∷ []) = g
first_of_two parts = []

-- `apps` of `apps/v1`, and nothing of `v1`.
unfoldable pub group_of : Text → Text
unfolding first_of_two split
group_of gv = first_of_two (split slash gv)

-- buildCapabilityID, and the id that listAllResourceIDs builds.
unfoldable pub capability_id : Text → Text → Text
capability_id kind group = if is_empty group then kind else kind ++ dot ∷ group

pub record Progress : Type 0 where
  pub seen : List Text
  pub ids : List Text

module _ (include exclude : List Text) where
  note : Text → Progress → Progress
  note id p = if list_contains id p.seen then p else record {
    seen = id ∷ p.seen;
    ids = if should_process_resource include exclude id then p.ids ++ id ∷ [] else p.ids;
  }

  visit : Text → ApiResource → Progress → Progress
  unfolding note has_byte
  visit group r p = if has_byte slash r.name then p else note (capability_id r.kind group) p

  visit_resources : Text → List ApiResource → Progress → Progress
  unfolding visit
  visit_resources group [] p = p
  visit_resources group (r ∷ rs) p = visit_resources group rs (visit group r p)

  visit_lists : List (Option ApiResourceList) → Progress → Progress
  unfolding visit_resources
  visit_lists [] p = p
  visit_lists (none ∷ ls) p = visit_lists ls p
  visit_lists (some l ∷ ls) p =
      visit_lists ls (visit_resources (group_of l.group_version) l.resources p)

  -- `none` is a nil discovery client.
  unfoldable pub list_all_resource_ids : Option Discovered → Listed
  unfolding visit_lists
  list_all_resource_ids none = list_failed (codes "discovery client not initialized")
  list_all_resource_ids (some (failed e)) =
      list_failed (codes "failed to discover API resources: " ++ e)
  list_all_resource_ids (some (partial ls)) =
      listed (visit_lists ls (record { seen = []; ids = [] })).ids
  list_all_resource_ids (some (complete ls)) =
      listed (visit_lists ls (record { seen = []; ids = [] })).ids

-- The ids of the resources of a list that are no subresources.
abbrev pub ids_of_list : Text → List ApiResource → List Text
ids_of_list group [] = []
ids_of_list group (r ∷ rs) =
    let rest = ids_of_list group rs in
    if has_byte slash r.name then rest else capability_id r.kind group ∷ rest

abbrev pub ids_of_lists : List (Option ApiResourceList) → List Text
ids_of_lists [] = []
ids_of_lists (none ∷ ls) = ids_of_lists ls
ids_of_lists (some l ∷ ls) = ids_of_list (group_of l.group_version) l.resources ++ ids_of_lists ls
