-- ===== src/Tests/Limits.antt =====
-- Runs of the rate limits and the cooldowns: a policy of two events a minute, with a cooldown of three
-- minutes.
use dot_ai_controller.Prelude.{
  ℕ, text_dec, ℕ_discrete, ◌≤◌, ◌≡◌, refl, none, [], ◌∷◌, Text, codes, text_eq, length, keep, arith,
}
use dot_ai_controller.Prelude.Map.{Map, lookup}
use dot_ai_controller.Remediation.Cooldowns.{
  is_object_in_cooldown, cleanup_object_cooldowns, cleanup_object_cooldowns-unseen,
}
use dot_ai_controller.Remediation.RateLimit.{RateLimiting, RateState, allowed, is_rate_limited}
use dot_ai_controller.Remediation.RateLimit.Calls.{no_limit-no_cooldown}
use dot_ai_controller.Remediation.RateLimit.Window.{in_minute, run_calls, rate_limit_bound}

abbrev key : Text
key = codes "ns/p/default/job:x"

abbrev limits : RateLimiting
limits = record { events_per_minute = 2; cooldown_minutes = 3 }

abbrev no_cooldown : RateLimiting
no_cooldown = record { events_per_minute = 2; cooldown_minutes = 0 }

abbrev fresh : RateState
fresh = record { tracking = []; cooldowns = []; dirty = [] }

rate_limit_bound_example :
    length (
      keep
        (in_minute 70000000000)
        (run_calls none key no_cooldown (10000000000 ∷ 20000000000 ∷ 30000000000 ∷ []) [] fresh))
    ≤ 2
unfolding lookup
rate_limit_bound_example =
    rate_limit_bound none key no_cooldown (10000000000 ∷ 20000000000 ∷ 30000000000 ∷ []) fresh
      70000000000 (omega arith) (omega arith, (omega arith, (omega arith, tt))) refl

no_limit-no_cooldown_example :
    is_rate_limited none 5 key (record { events_per_minute = 0; cooldown_minutes = 15 }) fresh
    ≡ (allowed, fresh)
unfolding lookup
no_limit-no_cooldown_example = no_limit-no_cooldown none 5 key 15 fresh refl

abbrev cooldowns : Map Text ℕ
cooldowns = (codes "old", 20) ∷ (key, 50) ∷ []

cleanup_object_cooldowns-unseen_example :
    is_object_in_cooldown 40 key (cleanup_object_cooldowns 30 cooldowns)
    ≡ is_object_in_cooldown 40 key cooldowns
unfolding lookup text_dec ℕ_discrete
cleanup_object_cooldowns-unseen_example =
    cleanup_object_cooldowns-unseen 30 40 key cooldowns (refl, (refl, tt)) (omega arith)
