-- ===== src/Remediation/Policy.antt =====
-- remediationpolicy_controller.go: which events a policy selects. Regular expressions are an argument;
-- the confidence threshold, a float64, is not modelled.
use dot_ai_controller.Prelude.{
  ℕ, Bool, true, false, not, ◌&&◌, Option, none, some, is_some, List, [], ◌∷◌, Text, codes,
  is_empty, text_eq, ◌==◌, if◌then◌else◌, ◌≡◌, ◌≢◌, ◌↔◌, ◌⊎◌, inl, refl, arith,
}
use dot_ai_controller.Remediation.Owner.{ObjectReference}
use dot_ai_controller.Remediation.RateLimit.{RateLimiting}

pub record Event : Type 0 where
  pub namespace : Text
  pub name : Text
  pub resource_version : Text
  pub type : Text
  pub reason : Text
  pub message : Text
  pub involved_object : ObjectReference
  pub last_timestamp : Option ℕ
  pub event_time : Option ℕ

pub record EventSelector : Type 0 where
  pub type : Text
  pub reason : Text
  pub involved_object_kind : Text
  pub namespace : Text
  pub message : Text
  pub mode : Text
  pub max_risk_level : Text

pub record RemediationPolicy : Type 0 where
  pub namespace : Text
  pub name : Text
  pub event_selectors : List EventSelector
  pub mode : Text
  pub max_risk_level : Text
  pub rate_limiting : RateLimiting
  -- What persists of its cooldowns: `none`, nothing, and else the shortest.
  pub persist : Option ℕ

-- `selector.X != "" && event.X != selector.X`
abbrev differs : Text → Text → Bool
differs wanted got = not (is_empty wanted) && not (got == wanted)

-- regexp.MatchString: `none` is an invalid pattern.
abbrev matched : Option Bool → Bool
matched none = false
matched (some b) = b

unfoldable pub matches_selector : (Text → Text → Option Bool) → Event → EventSelector → Bool
matches_selector match_string event selector =
    if differs selector.type event.type
    then false
    else if differs selector.reason event.reason
    then false
    else if differs selector.involved_object_kind event.involved_object.kind
    then false
    else if differs selector.namespace event.namespace
    then false
    else if not (is_empty selector.message)
    then matched (match_string selector.message event.message)
    else true

unfoldable pub matches_any_selector :
    (Text → Text → Option Bool) → Event → List EventSelector → Bool
matches_any_selector match_string event [] = false
matches_any_selector match_string event (s ∷ selectors) =
    if matches_selector match_string event s
    then true
    else matches_any_selector match_string event selectors

unfoldable pub matches_policy : (Text → Text → Option Bool) → Event → RemediationPolicy → Bool
unfolding matches_any_selector
matches_policy match_string event policy =
    matches_any_selector match_string event policy.event_selectors

unfoldable pub first_selector :
    (Text → Text → Option Bool) → Event → List EventSelector → Option EventSelector
first_selector match_string event [] = none
first_selector match_string event (s ∷ selectors) =
    if matches_selector match_string event s
    then some s
    else first_selector match_string event selectors

unfoldable pub matches_policy_with_selector :
    (Text → Text → Option Bool) → Event → RemediationPolicy → Option EventSelector
unfolding first_selector
matches_policy_with_selector match_string event policy =
    first_selector match_string event policy.event_selectors

unfoldable pub get_effective_mode : EventSelector → RemediationPolicy → Text
get_effective_mode selector policy =
    if not (is_empty selector.mode)
    then selector.mode
    else if not (is_empty policy.mode)
    then policy.mode
    else codes "manual"

unfoldable pub get_effective_max_risk_level : EventSelector → RemediationPolicy → Text
get_effective_max_risk_level selector policy =
    if not (is_empty selector.max_risk_level)
    then selector.max_risk_level
    else if not (is_empty policy.max_risk_level)
    then policy.max_risk_level
    else codes "low"

-- An empty criterion is met by every event.
abbrev pub Meets : Text → Text → Type 0
Meets wanted got = (wanted ≡ []) ⊎ (got ≡ wanted)

differs-Meets : (wanted got : Text) → (differs wanted got ≡ false) ↔ Meets wanted got
differs-Meets [] got = ((λ h. inl refl), λ m. refl)
differs-Meets (c ∷ w) got = ((λ h. ground arith), λ m. ground arith)

guard_iff :
    (d b : Bool) (M P : Type 0)
    → ((d ≡ false) ↔ M)
    → ((b ≡ true) ↔ P)
    → ((if d then false else b) ≡ true) ↔ (M × P)
guard_iff true b M P k j = ((λ h. absurd cc), λ x. absurd (true-ne-false (k.1 x.0)))
  where
    true-ne-false : true ≢ false
    true-ne-false e = cc
guard_iff false b M P k j = ((λ h. (k.0 refl, j.0 h)), λ x. j.1 x.1)

matched_iff :
    (message : Text) (o : Option Bool)
    → ((if not (is_empty message) then matched o else true) ≡ true)
      ↔ ((message ≡ []) ⊎ (o ≡ some true))
matched_iff [] o = ((λ h. inl refl), λ m. refl)
matched_iff (c ∷ w) none = ((λ h. ground arith), λ m. ground arith)
matched_iff (c ∷ w) (some b) = ((λ h. ground arith), λ m. ground arith)

-- A selector selects an event exactly if the event meets each of its criteria, of type, reason, kind and
-- namespace, and its pattern, if it has one, is valid and is found in the message.
pub matches_selector_iff :
    (match_string : Text → Text → Option Bool) (event : Event) (selector : EventSelector)
    → (matches_selector match_string event selector ≡ true) ↔ (
        Meets selector.type event.type
        × (Meets selector.reason event.reason
            × (Meets selector.involved_object_kind event.involved_object.kind
                × (Meets selector.namespace event.namespace
                    × ((selector.message ≡ [])
                        ⊎ (match_string selector.message event.message ≡ some true))))))
unfolding matches_selector
matches_selector_iff match_string event selector =
    guard_iff _ _ _ _ (differs-Meets selector.type event.type) (
      guard_iff _ _ _ _ (differs-Meets selector.reason event.reason) (
        guard_iff _ _ _ _ (differs-Meets selector.involved_object_kind event.involved_object.kind) (
          guard_iff _ _ _ _ (differs-Meets selector.namespace event.namespace)
            (matched_iff selector.message (match_string selector.message event.message)))))

first_selector-finds :
    (match_string : Text → Text → Option Bool) (event : Event) (selectors : List EventSelector)
    → is_some (first_selector match_string event selectors)
      ≡ matches_any_selector match_string event selectors
unfolding first_selector matches_any_selector
first_selector-finds match_string event [] = refl
first_selector-finds match_string event (t ∷ selectors) =
    ground (arith, first_selector-finds match_string event selectors)

-- Both ways to ask whether a policy matches an event agree.
pub matches_policy_with_selector-agrees :
    (match_string : Text → Text → Option Bool) (event : Event) (policy : RemediationPolicy)
    → is_some (matches_policy_with_selector match_string event policy)
      ≡ matches_policy match_string event policy
unfolding matches_policy_with_selector matches_policy
matches_policy_with_selector-agrees match_string event policy =
    first_selector-finds match_string event policy.event_selectors
