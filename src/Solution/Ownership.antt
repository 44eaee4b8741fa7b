-- ===== src/Solution/Ownership.antt =====
-- solution_controller.go, `ensureOwnerReference` and `ensureResourceOwnership`.
use dot_ai_controller.Prelude.{
  ◌≡◌, refl, inl, inr, Bool, true, false, Bool-cases, Option, none, some, List, [], ◌∷◌, ◌++◌, Text,
  codes, text_eq, ◌==◌, ==-true, if◌then◌else◌, arith,
}
use dot_ai_controller.Solution.{
  ResourceReference, Solution, Got, got, not_found, forbidden, other_error, in_namespace,
}

pub record OwnerReference : Type 0 where
  pub api_version : Text
  pub kind : Text
  pub name : Text
  pub uid : Text
  pub controller : Bool
  pub block_owner_deletion : Bool

unfoldable pub is_owned : Text → List OwnerReference → Bool
is_owned uid [] = false
is_owned uid (o ∷ owners) = if o.uid == uid then true else is_owned uid owners

abbrev pub owner_reference : Solution → OwnerReference
owner_reference solution = record {
  api_version = codes "dot-ai.devopstoolkit.live/v1alpha1";
  kind = codes "Solution";
  name = solution.name;
  uid = solution.uid;
  controller = false;
  block_owner_deletion = true;
}

-- The owners that an update would write; `none` is no update.
unfoldable pub ensure_owner_reference :
    Solution → List OwnerReference → Option (List OwnerReference)
unfolding is_owned
ensure_owner_reference solution owners =
    if is_owned solution.uid owners then none else some (owners ++ owner_reference solution ∷ [])

pub data OwnershipEffect : Type 0 where
  updated_owners : ResourceReference → List OwnerReference → OwnershipEffect
  insufficient_permissions owner_reference_failed : ResourceReference → OwnershipEffect

own_one :
    Solution
    → (ResourceReference → List OwnerReference → Bool)
    → ResourceReference
    → Option (List OwnerReference)
    → List OwnershipEffect
own_one solution update ref none = []
own_one solution update ref (some owners) =
    if update ref owners then updated_owners ref owners ∷ [] else owner_reference_failed ref ∷ []

own_got :
    Solution
    → (ResourceReference → List OwnerReference → Bool)
    → ResourceReference
    → Got (List OwnerReference)
    → List OwnershipEffect
unfolding own_one ensure_owner_reference
own_got solution update ref not_found = []
own_got solution update ref forbidden = insufficient_permissions ref ∷ []
own_got solution update ref other_error = []
own_got solution update ref (got owners) =
    own_one solution update ref (ensure_owner_reference solution owners)

unfoldable pub own_resources :
    Solution
    → (ResourceReference → Got (List OwnerReference))
    → (ResourceReference → List OwnerReference → Bool)
    → List ResourceReference
    → List OwnershipEffect
unfolding own_got in_namespace
own_resources solution get update [] = []
own_resources solution get update (ref ∷ refs) =
    own_got solution update (in_namespace solution.namespace ref)
      (get (in_namespace solution.namespace ref))
    ++ own_resources solution get update refs

-- The effects, in order; its error is always nil.
unfoldable pub ensure_resource_ownership :
    Solution
    → (ResourceReference → Got (List OwnerReference))
    → (ResourceReference → List OwnerReference → Bool)
    → List OwnershipEffect
unfolding own_resources
ensure_resource_ownership solution get update = own_resources solution get update solution.resources

is_owned-append :
    (solution : Solution) (owners : List OwnerReference)
    → is_owned solution.uid (owners ++ owner_reference solution ∷ []) ≡ true
unfolding is_owned
is_owned-append solution [] = rw (==-true solution.uid solution.uid refl) refl
is_owned-append solution (o ∷ owners) = ground (arith, is_owned-append solution owners)

-- An owner reference is added once: the owners that an update writes have the solution, after all that
-- were there, and from then on there is nothing to update.
pub ensure_owner_reference-once :
    (solution : Solution) (owners written : List OwnerReference)
    → ensure_owner_reference solution owners ≡ some written
    → (written ≡ owners ++ owner_reference solution ∷ [])
      × (is_owned solution.uid owners ≡ false)
      × (ensure_owner_reference solution written ≡ none)
unfolding ensure_owner_reference
ensure_owner_reference-once solution owners written h =
    elim (Bool-cases (is_owned solution.uid owners)) [
      | inl t ↦ absurd (none-some (rw t at h))
      | inr f ↦
          let e = some-same (rw f at h) in (e, f, rw (e, is_owned-append solution owners) refl)
    ]
  where
    none-some : {x : List OwnerReference} → none ≡ some x → ⊥
    none-some e = cc

    some-same : {x y : List OwnerReference} → some x ≡ some y → y ≡ x
    some-same e = cc
