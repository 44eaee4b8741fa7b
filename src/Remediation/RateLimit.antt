-- ===== src/Remediation/RateLimit.antt =====
-- remediationpolicy_ratelimit.go, `isRateLimited`. Times are nanoseconds, and a minute before `now` is
-- compared without a subtraction. A negative number of events or minutes acts as 0 does.
pub mod Calls
pub mod Window
use dot_ai_controller.Prelude.{
  ℕ, ◌+◌, ◌*◌, ◌-◌, Bool, ◌&&◌, Option, none, some, List, [], ◌∷◌, ◌++◌, Text, text_eq, nat_eq,
  ◌==◌, ltb, leb, if◌then◌else◌, length, keep,
}
use dot_ai_controller.Prelude.Map.{Map, lookup, insert}

abbrev pub minute : ℕ
minute = 60000000000

pub record RateLimiting : Type 0 where
  pub events_per_minute : ℕ
  pub cooldown_minutes : ℕ

-- The maps of the reconciler that `rateLimitMu` guards, and the dirty entries of the persistence.
pub record RateState : Type 0 where
  pub tracking : Map Text (List ℕ)
  pub cooldowns : Map Text ℕ
  pub dirty : Map Text (Unit {0})

-- The second result is the reason: how long the cooldown still lasts, or how many events were counted.
pub data Verdict : Type 0 where
  allowed : Verdict
  in_cooldown : ℕ → Verdict
  over_limit : ℕ → ℕ → Verdict

-- MarkDirty: `none` is a reconciler without persistence, or a policy that opts out; otherwise the
-- shortest cooldown that is persisted.
unfoldable pub mark_dirty : Option ℕ → ℕ → Text → ℕ → RateState → RateState
unfolding insert
mark_dirty none now key end st = st
mark_dirty (some shortest) now key end st =
    if ltb end (now + shortest) then st else record st { dirty = insert key tt st.dirty }

set_cooldown : Option ℕ → ℕ → Text → RateLimiting → RateState → RateState
unfolding mark_dirty
set_cooldown persist now key limits st =
    let end = now + limits.cooldown_minutes * minute in
    if ltb 0 limits.cooldown_minutes
    then mark_dirty persist now key end (record st { cooldowns = insert key end st.cooldowns })
    else st

abbrev pub times_of : Option (List ℕ) → List ℕ
times_of none = []
times_of (some ts) = ts

-- `t.After(now.Add(-time.Minute))`
abbrev pub is_recent : ℕ → ℕ → Bool
is_recent now t = ltb now (t + minute)

check_rate : Option ℕ → ℕ → Text → RateLimiting → RateState → Verdict × RateState
unfolding set_cooldown lookup
check_rate persist now key limits st =
    let recent = keep (is_recent now) (times_of (lookup key st.tracking)) in
    if ltb 0 limits.events_per_minute
    then if leb limits.events_per_minute (length recent)
      then (over_limit (length recent) limits.events_per_minute, st)
      else (
        allowed,
        set_cooldown persist now key limits
            (record st { tracking = insert key (recent ++ now ∷ []) st.tracking }),
      )
    else (allowed, st)

after_cooldown : Option ℕ → ℕ → Text → RateLimiting → RateState → Option ℕ → Verdict × RateState
unfolding check_rate
after_cooldown persist now key limits st none = check_rate persist now key limits st
after_cooldown persist now key limits st (some end) =
    if ltb now end then (in_cooldown (end - now), st) else check_rate persist now key limits st

unfoldable pub is_rate_limited :
    Option ℕ → ℕ → Text → RateLimiting → RateState → Verdict × RateState
unfolding after_cooldown
is_rate_limited persist now key limits st =
    if limits.events_per_minute == 0 && limits.cooldown_minutes == 0
    then (allowed, st)
    else after_cooldown persist now key limits st (lookup key st.cooldowns)
