-- ===== src/KnowledgeSource/Schedule.antt =====
-- internal/controller/gitknowledgesource_scheduler.go: when a source is synced next. Times are natural
-- numbers, the zero time is 0; the parser of package cron, and the `Next` of what it parses, are parameters.
use dot_ai_controller.Prelude.{
  ℕ, ◌+◌, ◌-◌, ◌≤◌, ◌<◌, ◌≡◌, refl, ◌⊎◌, inl, inr, Option, none, some, ◌++◌, Text, codes, is_empty,
  nat_eq, ◌==◌, ltb, if◌then◌else◌, Result, ok, err, ◌>>=◌, Result-cases, arith,
}

pub record ScheduleParser : Type 0 where
  pub parse : Text → Result (ℕ → ℕ)
  -- The verb `%q` of package fmt.
  pub quote : Text → Text

abbrev pub default_schedule : Text
default_schedule = codes "@every 24h"

abbrev pub or_default : Text → Text
or_default schedule = if is_empty schedule then default_schedule else schedule

invalid : Text → Result (ℕ → ℕ) → Result (ℕ → ℕ)
invalid quoted (ok next) = ok next
invalid quoted (err e) = err (codes "invalid schedule " ++ quoted ++ codes ": " ++ e)

parse_schedule : ScheduleParser → Text → Result (ℕ → ℕ)
unfolding invalid
parse_schedule p schedule = invalid (p.quote (or_default schedule)) (p.parse (or_default schedule))

-- The duration from the time to the next sync, and the time of that sync, which is not in the past.
unfoldable pub from_now : ℕ → ℕ → ℕ × ℕ
from_now now next = if ltb next now then (0, now) else (next - now, next)

-- The time that the next sync is counted from: the last one, if there was one.
abbrev pub reference_of : ℕ → ℕ → ℕ
reference_of last_sync first_now = if last_sync == 0 then first_now else last_sync

-- The last two arguments are the two readings of the clock.
unfoldable pub next_sync_duration : ScheduleParser → Text → ℕ → ℕ → ℕ → Result (ℕ × ℕ)
unfolding parse_schedule from_now
next_sync_duration p schedule last_sync first_now now = do
  next ← parse_schedule p schedule
  ok (from_now now (next (reference_of last_sync first_now)))

abbrev error_of : Result (ℕ → ℕ) → Option Text
error_of (ok next) = none
error_of (err e) = some e

unfoldable pub validate_schedule : ScheduleParser → Text → Option Text
unfolding parse_schedule
validate_schedule p schedule = error_of (parse_schedule p schedule)

pub from_now-bounds :
    (now next : ℕ)
    → ((from_now now next).1 ≡ now + (from_now now next).0)
      × (((now ≤ next) × ((from_now now next).1 ≡ next))
          ⊎ ((next < now) × ((from_now now next).0 ≡ 0)))
unfolding from_now
from_now-bounds now next = ground arith

parse_schedule-valid :
    (p : ScheduleParser) (schedule : Text)
    → validate_schedule p schedule ≡ none
    → (next : ℕ → ℕ) × (p.parse (or_default schedule) ≡ ok next)
      × (parse_schedule p schedule ≡ ok next)
unfolding validate_schedule parse_schedule invalid
parse_schedule-valid p schedule h = elim (Result-cases (p.parse (or_default schedule))) [
  | inl (next, e) ↦ (next, e, rw e refl)
  | inr (x, e) ↦ absurd (cc (rw e at h))
]

-- A schedule that is valid has a next sync, at the time that lies the returned duration after the second
-- reading of the clock. That is where the schedule puts it, counted from the last sync or else from the first
-- reading, unless that is in the past: then the duration is 0.
pub next_sync_duration-valid :
    (p : ScheduleParser) (schedule : Text) (last_sync first_now now : ℕ)
    → validate_schedule p schedule ≡ none
    → (next : ℕ → ℕ) × (d : ℕ) × (t : ℕ) × (p.parse (or_default schedule) ≡ ok next)
      × (next_sync_duration p schedule last_sync first_now now ≡ ok (d, t))
      × (t ≡ now + d)
      × (((now ≤ next (reference_of last_sync first_now))
            × (t ≡ next (reference_of last_sync first_now)))
          ⊎ ((next (reference_of last_sync first_now) < now) × (d ≡ 0)))
unfolding next_sync_duration
next_sync_duration-valid p schedule last_sync first_now now h =
    let (next, e, e') = parse_schedule-valid p schedule h in
    let (sum, cases) = from_now-bounds now (next (reference_of last_sync first_now)) in
    (
      next,
      (from_now now (next (reference_of last_sync first_now))).0,
      (from_now now (next (reference_of last_sync first_now))).1,
      e,
      rw e' refl,
      sum,
      cases,
    )
