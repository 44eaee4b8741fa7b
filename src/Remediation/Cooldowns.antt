-- ===== src/Remediation/Cooldowns.antt =====
-- remediationpolicy_ratelimit.go: the cooldown of an object, whatever the limits of the policy.
use dot_ai_controller.Prelude.{
  ℕ, ◌+◌, ◌*◌, ◌-◌, ◌≤◌, ◌≡◌, refl, not, Option, none, some, Option-cases, inl, inr, Text, text_eq,
  ◌==◌, ltb, if◌then◌else◌, arith,
}
use dot_ai_controller.Prelude.Map.{
  Map, lookup, insert, retain, lookup-insert, lookup-retain, Distinct,
}
use dot_ai_controller.Remediation.RateLimit.{minute}

abbrev pub default_object_cooldown_minutes : ℕ
default_object_cooldown_minutes = 5

remaining_of : ℕ → Option ℕ → Option ℕ
remaining_of now none = none
remaining_of now (some end) = if ltb now end then some (end - now) else none

-- What is left of the cooldown; `none` is false.
unfoldable pub is_object_in_cooldown : ℕ → Text → Map Text ℕ → Option ℕ
unfolding lookup remaining_of
is_object_in_cooldown now key cooldowns = remaining_of now (lookup key cooldowns)

unfoldable pub set_object_cooldown : ℕ → Text → Map Text ℕ → Map Text ℕ
unfolding insert
set_object_cooldown now key cooldowns =
    insert key (now + default_object_cooldown_minutes * minute) cooldowns

unfoldable pub cleanup_object_cooldowns : ℕ → Map Text ℕ → Map Text ℕ
unfolding retain
cleanup_object_cooldowns now cooldowns = retain (λ key end. not (ltb end now)) cooldowns

-- Five minutes from when it was set, an object's cooldown denies, with the time that is left; from the
-- end on it does not. The cooldowns of all other keys are as they were.
pub set_object_cooldown-lasts :
    (now later : ℕ) (key asked : Text) (cooldowns : Map Text ℕ)
    → is_object_in_cooldown later asked (set_object_cooldown now key cooldowns) ≡ (
        if key == asked
        then (if ltb later (now + 300000000000) then some (now + 300000000000 - later) else none)
        else is_object_in_cooldown later asked cooldowns)
unfolding is_object_in_cooldown set_object_cooldown remaining_of
set_object_cooldown-lasts now later key asked cooldowns =
    ground (arith, lookup-insert key asked (now + 300000000000) cooldowns)

-- A cleanup of cooldowns under distinct keys is never seen: whoever asks at the time of the cleanup
-- or after it gets the answer that he would have got without it.
pub cleanup_object_cooldowns-unseen :
    (now later : ℕ) (key : Text) (cooldowns : Map Text ℕ)
    → Distinct cooldowns
    → now ≤ later
    → is_object_in_cooldown later key (cleanup_object_cooldowns now cooldowns)
      ≡ is_object_in_cooldown later key cooldowns
unfolding is_object_in_cooldown cleanup_object_cooldowns remaining_of
cleanup_object_cooldowns-unseen now later key cooldowns d le =
    rw (lookup-retain (λ (k : Text) end. not (ltb end now)) key cooldowns d)
      (elim (Option-cases (lookup key cooldowns)) [
        | inl free ↦ rw free refl
        | inr (end, e) ↦ rw e (ground arith)
      ])
