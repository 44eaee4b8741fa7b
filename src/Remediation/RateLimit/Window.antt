-- ===== src/Remediation/RateLimit/Window.antt =====
-- remediationpolicy_ratelimit.go, `isRateLimited`: how many events are let through in a minute.
use dot_ai_controller.Prelude.{
  ℕ, ◌+◌, ◌≤◌, ◌<◌, ◌≡◌, ◌≢◌, refl, sym, ap, ◌∙◌, ◌⊎◌, inl, inr, Bool, true, false, ◌&&◌, Option,
  none, List, [], ◌∷◌, ◌++◌, Text, text_eq, nat_eq, ltb, leb, if◌then◌else◌, length, length-append,
  keep, arith, Bool-cases,
}
use dot_ai_controller.Prelude.Map.{lookup}
use dot_ai_controller.Remediation.RateLimit.{
  minute, RateLimiting, RateState, Verdict, allowed, in_cooldown, over_limit, times_of, is_recent,
  is_rate_limited,
}
use dot_ai_controller.Remediation.RateLimit.Calls.{
  recent_of, denied-unchanged, allowed-tracking, below,
}

abbrev pub is_allowed : Verdict → Bool
is_allowed allowed = true
is_allowed (in_cooldown n) = false
is_allowed (over_limit n m) = false

verdict-cases : (v : Verdict) → (v ≡ allowed) ⊎ ((v ≢ allowed) × (is_allowed v ≡ false))
verdict-cases allowed = inl refl
verdict-cases (in_cooldown n) = inr ((λ e. cc), refl)
verdict-cases (over_limit n m) = inr ((λ e. cc), refl)

-- The calls for one key at the given times, with the times of those that were allowed so far, oldest
-- first.
unfoldable pub run_calls : Option ℕ → Text → RateLimiting → List ℕ → List ℕ → RateState → List ℕ
run_calls persist key limits [] done st = done
run_calls persist key limits (now ∷ rest) done st =
    let (verdict, after) = is_rate_limited persist now key limits st in
    run_calls persist key limits rest (if is_allowed verdict then done ++ now ∷ [] else done) after

-- The times do not go back.
abbrev pub Ascends : ℕ → List ℕ → Type 0
Ascends from [] = Unit
Ascends from (t ∷ ts) = (from ≤ t) × Ascends t ts

-- Within the minute that ends at an instant, that instant included.
abbrev pub in_minute : ℕ → ℕ → Bool
in_minute instant t = leb t instant && ltb instant (t + minute)

abbrev pub UpTo : ℕ → List ℕ → Type 0
UpTo now [] = Unit
UpTo now (t ∷ ts) = (t ≤ now) × UpTo now ts

keep-append : (p : ℕ → Bool) (xs ys : List ℕ) → keep p (xs ++ ys) ≡ keep p xs ++ keep p ys
keep-append p [] ys = refl
keep-append p (x ∷ xs) ys = ground (arith, keep-append p xs ys)

keep_recent-keep_recent :
    (t0 now : ℕ) (xs : List ℕ)
    → t0 ≤ now
    → keep (is_recent now) (keep (is_recent t0) xs) ≡ keep (is_recent now) xs
keep_recent-keep_recent t0 now [] le = refl
keep_recent-keep_recent t0 now (x ∷ xs) le = ground (arith, keep_recent-keep_recent t0 now xs)

-- Of what was allowed up to `now`, the minute of a later instant holds no more than that of `now`.
in_minute-le-recent :
    (now instant : ℕ) (xs : List ℕ)
    → now ≤ instant
    → length (keep (in_minute instant) xs) ≤ length (keep (is_recent now) xs)
in_minute-le-recent now instant [] le = omega arith
in_minute-le-recent now instant (x ∷ xs) le = ground (arith, in_minute-le-recent now instant xs le)

UpTo-later : (t0 now : ℕ) (xs : List ℕ) → t0 ≤ now → UpTo t0 xs → UpTo now xs
UpTo-later t0 now [] le u = tt
UpTo-later t0 now (x ∷ xs) le u = (omega arith, UpTo-later t0 now xs le u.1)

UpTo-append : (now : ℕ) (xs : List ℕ) → UpTo now xs → UpTo now (xs ++ now ∷ [])
UpTo-append now [] u = (omega arith, tt)
UpTo-append now (x ∷ xs) u = (u.0, UpTo-append now xs u.1)

abbrev Within : ℕ → List ℕ → Type 0
Within most done = (instant : ℕ) → length (keep (in_minute instant) done) ≤ most

-- What ties the tracked times to those that were allowed: no minute holds too many, all are past, and
-- from now on the tracked times count as all of them do.
record IsTracked (key : Text) (limits : RateLimiting) (last : ℕ) (done : List ℕ) (st : RateState)
    : Type 0 where
  within : Within limits.events_per_minute done
  past : UpTo last done
  tracked : (now : ℕ) → last ≤ now → recent_of now key st ≡ keep (is_recent now) done

allow-Within :
    (now most : ℕ) (done : List ℕ)
    → UpTo now done
    → Within most done
    → length (keep (is_recent now) done) < most
    → Within most (done ++ now ∷ [])
allow-Within now most done u w lt instant = elim (Bool-cases (in_minute instant now)) [
  | inl inside ↦
      rw
        (
          keep-append (in_minute instant) done (now ∷ []),
          length-append (keep (in_minute instant) done) (keep (in_minute instant) (now ∷ [])),
        )
        (ground (arith, in_minute-le-recent now instant done))
  | inr outside ↦
      rw
        (
          keep-append (in_minute instant) done (now ∷ []),
          length-append (keep (in_minute instant) done) (keep (in_minute instant) (now ∷ [])),
        )
        (ground (arith, w instant))
]

module _ (persist : Option ℕ) (key : Text) (limits : RateLimiting)
    (pos : 0 < limits.events_per_minute) where
  allow-IsTracked :
      (last now : ℕ) (done : List ℕ) (st : RateState)
      → last ≤ now
      → IsTracked key limits last done st
      → (is_rate_limited persist now key limits st).0 ≡ allowed
      → IsTracked key limits now (done ++ now ∷ []) (is_rate_limited persist now key limits st).1
  allow-IsTracked last now done st le k ok = record {
    within =
        allow-Within now limits.events_per_minute done (UpTo-later last now done le k.past) k.within
          (rw (k.tracked now le) at (below persist now key limits st pos ok));
    past = UpTo-append now done (UpTo-later last now done le k.past);
    tracked = λ later le'.
        ap (λ (o : Option (List ℕ)). keep (is_recent later) (times_of o))
          (allowed-tracking persist now key limits st pos ok)
        ∙ keep-append (is_recent later) (recent_of now key st) (now ∷ [])
        ∙ ap (λ (xs : List ℕ). xs ++ keep (is_recent later) (now ∷ []))
            (ap (keep (is_recent later)) (k.tracked now le)
              ∙ keep_recent-keep_recent now later done le')
        ∙ sym (keep-append (is_recent later) done (now ∷ []));
  }

  deny-IsTracked :
      (last now : ℕ) (done : List ℕ) (st : RateState)
      → last ≤ now
      → IsTracked key limits last done st
      → (is_rate_limited persist now key limits st).0 ≢ allowed
      → IsTracked key limits now done (is_rate_limited persist now key limits st).1
  deny-IsTracked last now done st le k no_way =
      rw (denied-unchanged persist now key limits st no_way) (record {
        within = k.within;
        past = UpTo-later last now done le k.past;
        tracked = λ later le'. k.tracked later (omega arith);
      })

  run_calls-Within :
      (last : ℕ) (times done : List ℕ) (st : RateState)
      → Ascends last times
      → IsTracked key limits last done st
      → Within limits.events_per_minute (run_calls persist key limits times done st)
  unfolding run_calls
  run_calls-Within last [] done st a k = k.within
  run_calls-Within last (now ∷ rest) done st a k =
      elim (verdict-cases (is_rate_limited persist now key limits st).0) [
        | inl ok ↦ rw ok (
            run_calls-Within now rest (done ++ now ∷ []) _ a.1
              (allow-IsTracked last now done st a.0 k ok))
        | inr (no_way, shut) ↦
            rw shut
              (run_calls-Within now rest done _ a.1 (deny-IsTracked last now done st a.0 k no_way))
      ]

-- Under a limit of events, however the calls of a key come, at times that do not go back, from a
-- state in which the key has no events: at most `eventsPerMinute` of them are allowed in any
-- minute, at whatever instant it ends.
pub rate_limit_bound :
    (persist : Option ℕ) (key : Text) (limits : RateLimiting) (times : List ℕ) (st : RateState)
    (instant : ℕ)
    → 0 < limits.events_per_minute
    → Ascends 0 times
    → lookup key st.tracking ≡ none
    → length (keep (in_minute instant) (run_calls persist key limits times [] st))
      ≤ limits.events_per_minute
rate_limit_bound persist key limits times st instant pos a fresh =
    run_calls-Within persist key limits pos 0 times [] st a
      (record {
        within = λ i. omega arith;
        past = tt;
        tracked = λ now le. ap (λ (o : Option (List ℕ)). keep (is_recent now) (times_of o)) fresh;
      })
      instant
