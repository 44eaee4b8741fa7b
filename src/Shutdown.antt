-- ===== src/Shutdown.antt =====
-- internal/shutdown/shutdown.go: the tracker of a shutdown, the readiness check that reads it, and the goroutine
-- that handles the signals, whose calls are steps.
use dot_ai_controller.Prelude.{
  ℕ, suc, ◌<◌, ◌≡◌, refl, Bool, true, false, Option, none, some, if◌then◌else◌,
}

pub record Tracker : Type 0 where
  pub shutting_down : Bool

abbrev pub new_tracker : Tracker
new_tracker = record { shutting_down = false }

unfoldable pub mark_shutting_down : Tracker → Tracker
mark_shutting_down t = record { shutting_down = true }

unfoldable pub is_shutting_down : Tracker → Bool
is_shutting_down t = t.shutting_down

pub data CheckError : Type 0 where
  err_shutting_down : CheckError

unfoldable pub check : Tracker → Option CheckError
unfolding is_shutting_down
check t = if is_shutting_down t then some err_shutting_down else none

-- Where the goroutine stands: before the first signal, after it, after the mark, after the cancellation, and
-- after the second signal.
pub data Place : Type 0 where
  before_signal signalled marked draining exited : Place

-- The tracker, whether the context is cancelled, how many signals are waiting (the channel holds two, and further
-- ones are dropped), and the place.
pub record Process : Type 0 where
  pub tracker : Tracker
  pub cancelled : Bool
  pub signals : ℕ
  pub place : Place

pub data Step : Process → Process → Type 0 where
  notify : (p : Process) → p.signals < 2 → Step p (record p { signals = suc p.signals })
  first :
      (p : Process) (n : ℕ)
      → p.place ≡ before_signal
      → p.signals ≡ suc n
      → Step p (record p { signals = n; place = signalled })
  mark :
      (p : Process)
      → p.place ≡ signalled
      → Step p (record p { tracker = mark_shutting_down p.tracker; place = marked })
  cancel :
      (p : Process) → p.place ≡ marked → Step p (record p { cancelled = true; place = draining })
  second :
      (p : Process) (n : ℕ)
      → p.place ≡ draining
      → p.signals ≡ suc n
      → Step p (record p { signals = n; place = exited })

pub data Reach (s : Process) : Process → Type 0 where
  here : Reach s s
  next : {t u : Process} → Reach s t → Step t u → Reach s u

abbrev pub new_process : Process
new_process = record {
  tracker = new_tracker;
  cancelled = false;
  signals = 0;
  place = before_signal;
}

-- What a place tells of the check, and of the context.
abbrev pub OfPlace : Place → Tracker → Bool → Type 0
OfPlace before_signal t cancelled = (check t ≡ none) × (cancelled ≡ false)
OfPlace signalled t cancelled = (check t ≡ none) × (cancelled ≡ false)
OfPlace marked t cancelled = (check t ≡ some err_shutting_down) × (cancelled ≡ false)
OfPlace draining t cancelled = (check t ≡ some err_shutting_down) × (cancelled ≡ true)
OfPlace exited t cancelled = (check t ≡ some err_shutting_down) × (cancelled ≡ true)

Step-OfPlace :
    {s t : Process}
    → Step s t
    → OfPlace s.place s.tracker s.cancelled
    → OfPlace t.place t.tracker t.cancelled
unfolding check is_shutting_down mark_shutting_down
Step-OfPlace (notify p lt) i = i
Step-OfPlace (first p n e s) i = rw e at i
Step-OfPlace (mark p e) i = let waiting = rw e at i in (refl, waiting.1)
Step-OfPlace (cancel p e) i = let stopped = rw e at i in (stopped.0, refl)
Step-OfPlace (second p n e s) i = rw e at i

-- In every state that the process can get into, the readiness check fails from the mark on and passes before it,
-- and the context is cancelled only after the mark: when the manager begins to drain, the check fails already.
pub Reach-OfPlace : {p : Process} → Reach new_process p → OfPlace p.place p.tracker p.cancelled
unfolding check is_shutting_down
Reach-OfPlace here = (refl, refl)
Reach-OfPlace (next r st) = Step-OfPlace st (Reach-OfPlace r)
