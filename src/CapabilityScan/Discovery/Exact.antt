-- ===== src/CapabilityScan/Discovery/Exact.antt =====
-- capabilityscan_controller.go, `listAllResourceIDs`: which ids are listed.
use dot_ai_controller.Prelude.{
  ◌≡◌, refl, ap, sym, ◌∙◌, true, false, not, ◌&&◌, ◌||◌, Option, none, some, List, [], ◌∷◌, ◌++◌,
  Text, text_eq, ◌==◌, arith,
}
use dot_ai_controller.CapabilityScan.Filter.{list_contains, should_process_resource}
use dot_ai_controller.CapabilityScan.Discovery.{
  ApiResource, ApiResourceList, complete, partial, listed, Progress, group_of, ids_of_list,
  ids_of_lists, note, visit, visit_resources, visit_lists, list_all_resource_ids,
}

list_contains-append :
    (id : Text) (xs ys : List Text)
    → list_contains id (xs ++ ys) ≡ list_contains id xs || list_contains id ys
list_contains-append id [] ys = refl
list_contains-append id (x ∷ xs) ys = ground (arith, list_contains-append id xs ys)

-- No id stands twice.
abbrev pub AllDistinct : List Text → Type 0
AllDistinct [] = Unit
AllDistinct (x ∷ xs) = (list_contains x xs ≡ false) × AllDistinct xs

append_one-AllDistinct :
    (xs : List Text) (y : Text)
    → AllDistinct xs
    → list_contains y xs ≡ false
    → AllDistinct (xs ++ y ∷ [])
append_one-AllDistinct [] y d f = (refl, tt)
append_one-AllDistinct (x ∷ xs) y d f =
    ground (arith, append_one-AllDistinct xs y, list_contains-append x xs (y ∷ []))

module _ (include exclude : List Text) where
  note_all : List Text → Progress → Progress
  note_all [] p = p
  note_all (x ∷ xs) p = note_all xs (note include exclude x p)

  note_all-append :
      (xs ys : List Text) (p : Progress) → note_all (xs ++ ys) p ≡ note_all ys (note_all xs p)
  unfolding note_all
  note_all-append [] ys p = refl
  note_all-append (x ∷ xs) ys p = note_all-append xs ys (note include exclude x p)

  visit_resources_lem :
      (g : Text) (rs : List ApiResource) (p : Progress)
      → visit_resources include exclude g rs p ≡ note_all (ids_of_list g rs) p
  unfolding visit_resources note_all
  visit_resources_lem g [] p = refl
  visit_resources_lem g (r ∷ rs) p =
      ground (arith, visit_resources_lem g rs (visit include exclude g r p))

  visit_lists_lem :
      (ls : List (Option ApiResourceList)) (p : Progress)
      → visit_lists include exclude ls p ≡ note_all (ids_of_lists ls) p
  unfolding visit_lists
  visit_lists_lem [] p = unfold note_all in refl
  visit_lists_lem (none ∷ ls) p = visit_lists_lem ls p
  visit_lists_lem (some l ∷ ls) p =
      visit_lists_lem ls (visit_resources include exclude (group_of l.group_version) l.resources p)
      ∙ ap (note_all (ids_of_lists ls))
          (visit_resources_lem (group_of l.group_version) l.resources p)
      ∙ sym
          (note_all-append (ids_of_list (group_of l.group_version) l.resources) (ids_of_lists ls) p)

  seen-note :
      (id x : Text) (p : Progress)
      → list_contains id (note include exclude x p).seen ≡ (x == id || list_contains id p.seen)
  unfolding note
  seen-note id x p = ground arith

  ids-note :
      (id x : Text) (p : Progress)
      → list_contains id (note include exclude x p).ids
        ≡ list_contains id p.ids
          || (x == id
              && not (list_contains id p.seen)
              && should_process_resource include exclude id)
  unfolding note
  ids-note id x p = ground (arith, list_contains-append id p.ids (x ∷ []))

  ids-note_all :
      (id : Text) (xs : List Text) (p : Progress)
      → list_contains id (note_all xs p).ids
        ≡ list_contains id p.ids
          || (list_contains id xs
              && not (list_contains id p.seen)
              && should_process_resource include exclude id)
  unfolding note_all
  ids-note_all id [] p = ground arith
  ids-note_all id (x ∷ xs) p =
      ground
        (arith, ids-note_all id xs (note include exclude x p), ids-note id x p, seen-note id x p)

  -- What has been taken was seen, and was taken once.
  record IsFresh (p : Progress) : Type 0 where
    was_seen : (id : Text) → list_contains id p.ids ≡ true → list_contains id p.seen ≡ true
    distinct : AllDistinct p.ids

  distinct-note : (x : Text) (p : Progress) → IsFresh p → AllDistinct (note include exclude x p).ids
  unfolding note
  distinct-note x p f = ground (arith, f.was_seen x, f.distinct, append_one-AllDistinct p.ids x)

  note-IsFresh : (x : Text) (p : Progress) → IsFresh p → IsFresh (note include exclude x p)
  note-IsFresh x p f = record {
    was_seen = λ id h. ground (arith, f.was_seen id, ids-note id x p, seen-note id x p);
    distinct = distinct-note x p f;
  }

  note_all-IsFresh : (xs : List Text) (p : Progress) → IsFresh p → IsFresh (note_all xs p)
  unfolding note_all
  note_all-IsFresh [] p f = f
  note_all-IsFresh (x ∷ xs) p f =
      note_all-IsFresh xs (note include exclude x p) (note-IsFresh x p f)

  listed_ids : List (Option ApiResourceList) → List Text
  listed_ids ls = (note_all (ids_of_lists ls) (record { seen = []; ids = [] })).ids

  list_lem :
      (ls : List (Option ApiResourceList))
      → (list_all_resource_ids include exclude (some (complete ls)) ≡ listed (listed_ids ls))
        × (list_all_resource_ids include exclude (some (partial ls)) ≡ listed (listed_ids ls))
  unfolding list_all_resource_ids listed_ids
  list_lem ls =
      let e =
        ap (λ (p : Progress). listed p.ids) (visit_lists_lem ls (record { seen = []; ids = [] })) in
      (e, e)

-- A complete discovery and a partial one with the same lists are both listed, with the same ids: those of the
-- resources that are no subresources, in one of the lists, and pass the filters; and no id is listed twice,
-- though a resource may stand in the lists of several versions.
pub list_all_resource_ids-exact :
    (include exclude : List Text) (ls : List (Option ApiResourceList))
    → (ids : List Text) × (list_all_resource_ids include exclude (some (complete ls)) ≡ listed ids)
      × (list_all_resource_ids include exclude (some (partial ls)) ≡ listed ids)
      × ((id : Text)
          → list_contains id ids
            ≡ (list_contains id (ids_of_lists ls) && should_process_resource include exclude id))
      × AllDistinct ids
unfolding listed_ids
list_all_resource_ids-exact include exclude ls =
    let start : Progress = record { seen = []; ids = [] } in
    let (whole, part) = list_lem include exclude ls in
    (
      (note_all include exclude (ids_of_lists ls) start).ids,
      whole,
      part,
      (λ id. ids-note_all include exclude id (ids_of_lists ls) start ∙ ground arith),
      (note_all-IsFresh include exclude (ids_of_lists ls) start
          (record { was_seen = λ id h. h; distinct = tt })).distinct,
    )
