-- ===== src/Remediation/RateLimit/Calls.antt =====
-- remediationpolicy_ratelimit.go, `isRateLimited`: one call, on every branch.
use dot_ai_controller.Prelude.{
  ◌↔◌, Option-cases, ap, ◌∙◌, ℕ, ◌+◌, ◌*◌, ◌-◌, ◌≤◌, ◌<◌, ◌≡◌, ◌≢◌, refl, inl, inr, Bool, true,
  Option, none, some, List, [], ◌∷◌, ◌++◌, Text, text_eq, nat_eq, leb, length, keep, arith,
}
use dot_ai_controller.Prelude.Map.{lookup, insert, lookup-insert}
use dot_ai_controller.Remediation.RateLimit.{
  minute, RateLimiting, RateState, allowed, in_cooldown, mark_dirty, set_cooldown, times_of,
  is_recent, is_rate_limited,
}

-- The key's recent events at a time.
abbrev pub recent_of : ℕ → Text → RateState → List ℕ
recent_of now key st = keep (is_recent now) (times_of (lookup key st.tracking))

-- A call that is denied changes nothing.
pub denied-unchanged :
    (persist : Option ℕ) (now : ℕ) (key : Text) (limits : RateLimiting) (st : RateState)
    → (is_rate_limited persist now key limits st).0 ≢ allowed
    → (is_rate_limited persist now key limits st).1 ≡ st
unfolding is_rate_limited
denied-unchanged persist now key limits st h = ground arith

cooldowns-mark_dirty :
    (persist : Option ℕ) (now : ℕ) (key : Text) (end : ℕ) (st : RateState)
    → ((mark_dirty persist now key end st).cooldowns ≡ st.cooldowns)
      × ((mark_dirty persist now key end st).tracking ≡ st.tracking)
unfolding mark_dirty
cooldowns-mark_dirty none now key end st = (refl, refl)
cooldowns-mark_dirty (some d) now key end st = ground arith

module _ (persist : Option ℕ) (now : ℕ) (key : Text) (limits : RateLimiting) (st : RateState)
    (pos : 0 < limits.events_per_minute) where
  not_running :
      (is_rate_limited persist now key limits st).0 ≡ allowed
      → (end : ℕ) → lookup key st.cooldowns ≡ some end
      → end ≤ now
  unfolding is_rate_limited
  not_running h end e = ground arith

  pub below :
      (is_rate_limited persist now key limits st).0 ≡ allowed
      → length (recent_of now key st) < limits.events_per_minute
  unfolding is_rate_limited
  below h = ground arith

  open_none :
      lookup key st.cooldowns ≡ none
      → length (recent_of now key st) < limits.events_per_minute
      → (is_rate_limited persist now key limits st).0 ≡ allowed
  unfolding is_rate_limited
  open_none n l = ground arith

  open_some :
      (end : ℕ)
      → lookup key st.cooldowns ≡ some end
      → end ≤ now
      → length (recent_of now key st) < limits.events_per_minute
      → (is_rate_limited persist now key limits st).0 ≡ allowed
  unfolding is_rate_limited
  open_some end e le l = ground arith

  -- The state after an allowed call.
  allowed-state :
      (is_rate_limited persist now key limits st).0 ≡ allowed
      → (is_rate_limited persist now key limits st).1
        ≡ set_cooldown persist now key limits
            (record st { tracking = insert key (recent_of now key st ++ now ∷ []) st.tracking })
  unfolding is_rate_limited
  allowed-state h = ground arith

running :
    (persist : Option ℕ) (later : ℕ) (key : Text) (limits : RateLimiting) (st : RateState) (end : ℕ)
    → 0 < limits.events_per_minute
    → lookup key st.cooldowns ≡ some end
    → later < end
    → is_rate_limited persist later key limits st ≡ (in_cooldown (end - later), st)
unfolding is_rate_limited
running persist later key limits st end pos e lt = ground arith

lookup-set_cooldown :
    (persist : Option ℕ) (now : ℕ) (key : Text) (limits : RateLimiting) (st : RateState)
    → 0 < limits.cooldown_minutes
    → lookup key (set_cooldown persist now key limits st).cooldowns
      ≡ some (now + limits.cooldown_minutes * minute)
unfolding set_cooldown
lookup-set_cooldown persist now key limits st cool = ground (
  arith,
  (cooldowns-mark_dirty persist now key (now + limits.cooldown_minutes * minute) (record st {
    cooldowns = insert key (now + limits.cooldown_minutes * minute) st.cooldowns;
  })).0,
  lookup-insert key key (now + limits.cooldown_minutes * minute) st.cooldowns,
)

-- The events of a key after an allowed call.
pub allowed-tracking :
    (persist : Option ℕ) (now : ℕ) (key : Text) (limits : RateLimiting) (st : RateState)
    → 0 < limits.events_per_minute
    → (is_rate_limited persist now key limits st).0 ≡ allowed
    → lookup key (is_rate_limited persist now key limits st).1.tracking
      ≡ some (recent_of now key st ++ now ∷ [])
unfolding set_cooldown
allowed-tracking persist now key limits st pos h =
    rw (allowed-state persist now key limits st pos h) (
      ground (
        arith,
        (cooldowns-mark_dirty persist now key (now + limits.cooldown_minutes * minute) (record {
          tracking = insert key (recent_of now key st ++ now ∷ []) st.tracking;
          cooldowns = insert key (now + limits.cooldown_minutes * minute) st.cooldowns;
          dirty = st.dirty;
        })).1,
        lookup-insert key key (recent_of now key st ++ now ∷ []) st.tracking,
      ))

-- No cooldown, or one that has ended.
abbrev pub is_over : ℕ → Option ℕ → Bool
is_over now none = true
is_over now (some end) = leb end now

-- Under a limit of events, a call is allowed exactly if no cooldown of its key is running and fewer
-- events of its key than the limit were allowed in the minute before it.
pub allowed_iff :
    (persist : Option ℕ) (now : ℕ) (key : Text) (limits : RateLimiting) (st : RateState)
    → 0 < limits.events_per_minute
    → ((is_rate_limited persist now key limits st).0 ≡ allowed) ↔ (
        (is_over now (lookup key st.cooldowns) ≡ true)
        × (length (recent_of now key st) < limits.events_per_minute))
allowed_iff persist now key limits st pos = elim (Option-cases (lookup key st.cooldowns)) [
  | inl free ↦ rw free (
    (λ h. (refl, below persist now key limits st pos h)),
    λ h. open_none persist now key limits st pos free h.1,
  )
  | inr (end, e) ↦ rw e (
    (λ h. (
      ground (arith, not_running persist now key limits st pos h end e),
      below persist now key limits st pos h,
    )),
    λ h. open_some persist now key limits st pos end e (ground arith) h.1,
  )
]

-- An event that is allowed under a limit of events starts the cooldown of its key, if one is set: a
-- call of that key on the state that it leaves, before the cooldown's end, is denied with the time
-- that is left, and changes nothing.
pub allowed-cooldown :
    (persist persist' : Option ℕ) (now later : ℕ) (key : Text) (limits : RateLimiting)
    (st : RateState)
    → 0 < limits.events_per_minute
    → 0 < limits.cooldown_minutes
    → (is_rate_limited persist now key limits st).0 ≡ allowed
    → later < now + limits.cooldown_minutes * minute
    → is_rate_limited persist' later key limits (is_rate_limited persist now key limits st).1 ≡ (
      in_cooldown (now + limits.cooldown_minutes * minute - later),
      (is_rate_limited persist now key limits st).1,
    )
allowed-cooldown persist persist' now later key limits st pos cool ok early =
    running persist' later key limits (is_rate_limited persist now key limits st).1
      (now + limits.cooldown_minutes * minute) pos
      (ap (λ (s : RateState). lookup key s.cooldowns)
          (allowed-state persist now key limits st pos ok)
        ∙ lookup-set_cooldown persist now key limits
            (record st { tracking = insert key (recent_of now key st ++ now ∷ []) st.tracking })
            cool)
      early

-- Without a limit of events no cooldown is ever started: from a state in which the key has none, every
-- call is allowed and changes nothing, however many cooldown minutes the policy asks for.
pub no_limit-no_cooldown :
    (persist : Option ℕ) (now : ℕ) (key : Text) (cooldown_minutes : ℕ) (st : RateState)
    → lookup key st.cooldowns ≡ none
    → is_rate_limited persist now key
        (record { events_per_minute = 0; cooldown_minutes = cooldown_minutes })
        st
      ≡ (allowed, st)
unfolding is_rate_limited
no_limit-no_cooldown persist now key cm st h = ground arith

-- A call leaves what is known of every other key.
pub other_key-unchanged :
    (persist : Option ℕ) (now : ℕ) (key other : Text) (limits : RateLimiting) (st : RateState)
    → key ≢ other
    → (let after = (is_rate_limited persist now key limits st).1 in
        (lookup other after.tracking ≡ lookup other st.tracking)
        × (lookup other after.cooldowns ≡ lookup other st.cooldowns))
unfolding is_rate_limited
other_key-unchanged persist now key other limits st n = ground (
  arith,
  lookup-insert key other (recent_of now key st ++ now ∷ []) st.tracking,
  lookup-insert key other (now + limits.cooldown_minutes * minute) st.cooldowns,
)
