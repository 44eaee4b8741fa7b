-- ===== src/ResourceSync/Status/Backoff.antt =====
-- When a writer of the status of a ResourceSyncConfig holds its write back.
use dot_ai_controller.Prelude.{
  ℕ, suc, ◌+◌, ◌≤◌, ◌<◌, ◌≡◌, refl, ◌↔◌, inl, inr, Bool, true, false, Option, none, some,
  Bool-cases, Option-cases, arith,
}
use dot_ai_controller.ResourceSync.Status.{
  ResourceSyncConfigStatus, status_update_backoff_duration, Failures, in_backoff, Answer, accepted,
  conflict, refused, settled, WriteWorld, write_status,
}

in_backoff-bounds :
    (now : ℕ) (f : Failures)
    → in_backoff now (some f) ≡ true
    → f.last ≤ now
    → (0 < f.count) × (now < f.last + status_update_backoff_duration)
unfolding in_backoff
in_backoff-bounds now f b le = ground arith

bounds-in_backoff :
    (now : ℕ) (f : Failures)
    → in_backoff now (some f) ≡ false
    → 0 < f.count
    → now < f.last + status_update_backoff_duration
    → f.last ≤ now
    → ⊥
unfolding in_backoff
bounds-in_backoff now f b c lt le = ground arith

write_status-backoff_iff :
    (ignores_conflict : Bool) (change : ResourceSyncConfigStatus → ResourceSyncConfigStatus)
    (world : WriteWorld) (f : Failures) (fresh : ResourceSyncConfigStatus)
    → world.fresh ≡ some fresh
    → f.last ≤ world.now
    → ((write_status ignores_conflict change world (some f)).sent ≡ none)
      ↔ ((0 < f.count) × (world.now < f.last + status_update_backoff_duration))
unfolding write_status in_backoff
write_status-backoff_iff ignores_conflict change world f fresh e le =
    elim (Bool-cases (in_backoff world.now (some f))) [
      | inl b ↦ (λ h. in_backoff-bounds world.now f b le, λ h. rw (b, write_status) refl)
      | inr b ↦ (
        λ h. absurd (cc (rw (b, e, write_status) at h)),
        λ h. absurd (bounds-in_backoff world.now f b h.0 h.1 le),
      )
    ]

write_status-settled :
    (ignores_conflict : Bool) (change : ResourceSyncConfigStatus → ResourceSyncConfigStatus)
    (world : WriteWorld) (failures : Option Failures) (s : ResourceSyncConfigStatus)
    → (write_status ignores_conflict change world failures).sent ≡ some s
    → (write_status ignores_conflict change world failures).failures
      ≡ settled ignores_conflict world.later world.answer failures
unfolding write_status
write_status-settled ignores_conflict change world failures s h =
    elim (Bool-cases (in_backoff world.now failures)) [
      | inl e ↦ absurd (cc (rw (e, write_status) at h))
      | inr e ↦ elim (Option-cases world.fresh) [
        | inl f ↦ absurd (cc (rw (e, f, write_status) at h))
        | inr f ↦ rw (e, f.1, write_status) refl
      ]
    ]

-- The answers to a write that count as failures: a refusal, and a conflict for updateStatus and the resyncs.
abbrev pub IsFailure : Bool → Answer → Type 0
IsFailure ignores_conflict accepted = ⊥
IsFailure ignores_conflict conflict = ignores_conflict ≡ false
IsFailure ignores_conflict refused = Unit {0}

module _ (ignores_conflict : Bool) (change : ResourceSyncConfigStatus → ResourceSyncConfigStatus)
    (world : WriteWorld) (fresh : ResourceSyncConfigStatus) (found : world.fresh ≡ some fresh) where
  none_counted-sends :
      (last : ℕ)
      → ¬ (
          (write_status ignores_conflict change world
            (some (record { count = 0; last = last }))).sent
          ≡ none)
  unfolding write_status in_backoff
  none_counted-sends last h = cc (rw (found, write_status, in_backoff) at h)

  counted_iff :
      (n last : ℕ)
      → last ≤ world.now
      → ((write_status ignores_conflict change world
            (some (record { count = suc n; last = last }))).sent
          ≡ none)
        ↔ (Unit {0} × (world.now < last + status_update_backoff_duration))
  counted_iff n last le =
      let (out, back) =
        write_status-backoff_iff ignores_conflict change world
          (record { count = suc n; last = last }) fresh found le in
      (λ h. (tt, (out h).1), λ h. back (omega arith, h.1))

  settled_iff :
      (ignored_conflict : Bool) (answer : Answer) (f : Failures) (later : ℕ)
      → (answer ≡ conflict → ignored_conflict ≡ false)
      → later ≤ world.now
      → ((write_status ignores_conflict change world
            (settled ignored_conflict later answer (some f))).sent
          ≡ none)
        ↔ (IsFailure ignored_conflict answer × (world.now < later + status_update_backoff_duration))
  settled_iff ignored_conflict accepted f later c le =
      (λ h. absurd (none_counted-sends f.last h), λ h. absurd h.0)
  settled_iff ignored_conflict refused f later c le = counted_iff f.count later le
  settled_iff ignored_conflict conflict f later c le =
      let (out, back) = counted_iff f.count later le in
      (λ h. (c refl, (out (rw (c refl) at h)).1), λ h. rw (c refl) (back (tt, h.1)))

-- After a writer with an active watcher has sent a status, the next writer, which finds a config and whose clock has
-- not run back, holds its write back exactly if the API refused the one before, or answered it with a conflict that
-- counts, less than five minutes ago: an accepted write ends the backoff, whatever failures came before it. A conflict
-- that the writer before ignores is left out.
pub write_status-held_iff :
    (ignored_conflict ignores_conflict : Bool)
    (change change' : ResourceSyncConfigStatus → ResourceSyncConfigStatus) (world next : WriteWorld)
    (f : Failures) (s fresh : ResourceSyncConfigStatus)
    → (write_status ignored_conflict change world (some f)).sent ≡ some s
    → (world.answer ≡ conflict → ignored_conflict ≡ false)
    → next.fresh ≡ some fresh
    → world.later ≤ next.now
    → ((write_status ignores_conflict change' next
          (write_status ignored_conflict change world (some f)).failures).sent
        ≡ none)
      ↔ (IsFailure ignored_conflict world.answer
          × (next.now < world.later + status_update_backoff_duration))
write_status-held_iff ignored_conflict ignores_conflict change change' world next f s fresh h c
      found le =
    rw (write_status-settled ignored_conflict change world (some f) s h) (
      settled_iff ignores_conflict change' next fresh found ignored_conflict world.answer f
        world.later c le)
