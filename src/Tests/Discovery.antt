-- ===== src/Tests/Discovery.antt =====
-- A run of the discovery: two versions of one group, a subresource, and a filter on the group.
use dot_ai_controller.Prelude.{◌≡◌, ◌&&◌, Option, none, some, List, [], ◌∷◌, Text, codes, text_eq}
use dot_ai_controller.CapabilityScan.Filter.{list_contains, should_process_resource}
use dot_ai_controller.CapabilityScan.Discovery.{
  complete, partial, listed, ApiResourceList, list_all_resource_ids, ids_of_lists,
}
use dot_ai_controller.CapabilityScan.Discovery.Exact.{AllDistinct, list_all_resource_ids-exact}

abbrev version : Text → ApiResourceList
version gv = record {
  group_version = gv;
  resources =
      record { name = codes "as"; kind = codes "A" }
      ∷ record { name = codes "as/status"; kind = codes "A" }
      ∷ [];
}

abbrev lists : List (Option ApiResourceList)
lists =
    some (version (codes "x.io/v1"))
    ∷ none
    ∷ some (version (codes "x.io/v2"))
    ∷ some (version (codes "v1"))
    ∷ []

list_all_resource_ids-exact_example :
    (ids : List Text) × (list_all_resource_ids (codes "*.x.io" ∷ []) [] (some (complete lists))
      ≡ listed ids)
    × (list_all_resource_ids (codes "*.x.io" ∷ []) [] (some (partial lists)) ≡ listed ids)
    × ((id : Text)
        → list_contains id ids ≡ (
            list_contains id (ids_of_lists lists)
            && should_process_resource (codes "*.x.io" ∷ []) [] id))
    × AllDistinct ids
list_all_resource_ids-exact_example = list_all_resource_ids-exact (codes "*.x.io" ∷ []) [] lists
