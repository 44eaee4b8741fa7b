-- ===== src/ResourceSync/Queue.antt =====
-- resourcesync_controller.go, `trySendChange`, `startWatcher` and `stopWatcher`: the queue of changes between the
-- handlers of the informers and the debounce buffer, as steps of the goroutines. The lock is released between the
-- look at the flag and the send, so that these are two steps.
use dot_ai_controller.Prelude.{
  ℕ, ◌≤◌, ◌<◌, ◌≡◌, refl, sym, ◌∙◌, ◌⊎◌, inl, inr, Bool, true, false, List, [], ◌∷◌, ◌++◌, length,
}
use dot_ai_controller.ResourceSync.Change.{ResourceChange}

abbrev pub change_queue_buffer_size : ℕ
change_queue_buffer_size = 10000

-- Whether the informers are started, the flag, whether the channel is closed, what waits in it, the changes of the
-- handlers that have seen the flag down and are about to send, and whether a handler has panicked.
pub record ChangeQueue : Type 0 where
  pub started : Bool
  pub marked : Bool
  pub closed : Bool
  pub waiting : List ResourceChange
  pub sending : List ResourceChange
  pub panicked : Bool

abbrev pub new_queue : ChangeQueue
new_queue = record {
  started = false;
  marked = false;
  closed = false;
  waiting = [];
  sending = [];
  panicked = false;
}

-- startWatcher stores the state and starts the informers,
abbrev pub start_informers : ChangeQueue → ChangeQueue
start_informers q = record q { started = true }

-- or closes the channel, when their setup fails.
abbrev pub abandon : ChangeQueue → ChangeQueue
abandon q = record q { closed = true }

-- stopWatcher sets the flag,
abbrev pub mark_closed : ChangeQueue → ChangeQueue
mark_closed q = record q { marked = true }

-- and then closes the channel.
abbrev pub close_queue : ChangeQueue → ChangeQueue
close_queue q = record q { closed = true }

pub data Step : ChangeQueue → ChangeQueue → Type 0 where
  start : (q : ChangeQueue) → q.closed ≡ false → Step q (start_informers q)
  fail : (q : ChangeQueue) → q.started ≡ false → q.closed ≡ false → Step q (abandon q)
  -- A handler finds the flag down.
  check :
      (q : ChangeQueue) (c : ResourceChange)
      → q.started ≡ true
      → q.marked ≡ false
      → Step q (record q { sending = c ∷ q.sending })
  -- It sends,
  send :
      (q : ChangeQueue) (c : ResourceChange) (before others : List ResourceChange)
      → q.sending ≡ before ++ c ∷ others
      → q.closed ≡ false
      → length q.waiting < change_queue_buffer_size
      → Step q (record q { waiting = q.waiting ++ c ∷ []; sending = before ++ others })
  -- or drops the change, as the queue is full,
  drop :
      (q : ChangeQueue) (c : ResourceChange) (before others : List ResourceChange)
      → q.sending ≡ before ++ c ∷ others
      → q.closed ≡ false
      → change_queue_buffer_size ≤ length q.waiting
      → Step q (record q { sending = before ++ others })
  -- or sends on a closed channel, which panics.
  crash :
      (q : ChangeQueue) (c : ResourceChange) (before others : List ResourceChange)
      → q.sending ≡ before ++ c ∷ others
      → q.closed ≡ true
      → Step q (record q { sending = before ++ others; panicked = true })
  -- A watcher is stopped once, as it is taken off the map under the lock of the configs.
  mark : (q : ChangeQueue) → q.started ≡ true → q.marked ≡ false → Step q (mark_closed q)
  close : (q : ChangeQueue) → q.marked ≡ true → q.closed ≡ false → Step q (close_queue q)
  -- The buffer takes a change.
  receive :
      (q : ChangeQueue) (c : ResourceChange) (rest : List ResourceChange)
      → q.waiting ≡ c ∷ rest
      → Step q (record q { waiting = rest })

pub data Reach (s : ChangeQueue) : ChangeQueue → Type 0 where
  here : Reach s s
  next : {t u : ChangeQueue} → Reach s t → Step t u → Reach s u

-- When the step is that of the flag, no handler is between its look at it and its send.
abbrev pub MarksIdle : {s t : ChangeQueue} → Step s t → Type 0
MarksIdle (start q c) = Unit {0}
MarksIdle (fail q s c) = Unit {0}
MarksIdle (check q c s m) = Unit {0}
MarksIdle (send q c before others e o lt) = Unit {0}
MarksIdle (drop q c before others e o le) = Unit {0}
MarksIdle (crash q c before others e o) = Unit {0}
MarksIdle (mark q s m) = q.sending ≡ []
MarksIdle (close q m c) = Unit {0}
MarksIdle (receive q c rest e) = Unit {0}

abbrev pub AllMarksIdle : {s t : ChangeQueue} → Reach s t → Type 0
AllMarksIdle here = Unit {0}
AllMarksIdle (next r st) = AllMarksIdle r × MarksIdle st

-- No handler sends before the informers are started, or once the flag is set; the channel is closed only then; and
-- none has panicked.
record IsQuiet (q : ChangeQueue) : Type 0 where
  early : q.started ≡ false → q.sending ≡ []
  stopped : q.marked ≡ true → q.sending ≡ []
  order : q.closed ≡ true → q.sending ≡ []
  fresh : q.closed ≡ true → (q.marked ≡ true) ⊎ (q.started ≡ false)
  fine : q.panicked ≡ false

true-ne-false : {b : Bool} → b ≡ false → ¬ (b ≡ true)
true-ne-false f t = cc

not-nil : (c : ResourceChange) (before others : List ResourceChange) → ¬ ([] ≡ before ++ c ∷ others)
not-nil c [] others h = cc
not-nil c (b ∷ before) others h = cc

-- A handler that is about to send shows that the informers are started, and the flag and the channel as they were.
less :
    (q : ChangeQueue) (c : ResourceChange) (before others : List ResourceChange)
    → q.sending ≡ before ++ c ∷ others
    → ¬ (q.sending ≡ [])
less q c before others e h = not-nil c before others (sym h ∙ e)

closed-unless :
    (q : ChangeQueue) → q.started ≡ true → q.marked ≡ false → IsQuiet q → ¬ (q.closed ≡ true)
closed-unless q s m i c = elim (i.fresh c) [
  | inl marked ↦ true-ne-false m marked
  | inr new ↦ true-ne-false new s
]

Step-IsQuiet : {s t : ChangeQueue} → (st : Step s t) → MarksIdle st → IsQuiet s → IsQuiet t
Step-IsQuiet (start q c) k i = record {
  early = λ h. absurd (cc h);
  stopped = i.stopped;
  order = i.order;
  fresh = λ h. absurd (true-ne-false c h);
  fine = i.fine;
}
Step-IsQuiet (fail q s c) k i = record {
  early = i.early;
  stopped = i.stopped;
  order = λ h. i.early s;
  fresh = λ h. inr s;
  fine = i.fine;
}
Step-IsQuiet (check q c s m) k i = record {
  early = λ h. absurd (true-ne-false h s);
  stopped = λ h. absurd (true-ne-false m h);
  order = λ h. absurd (closed-unless q s m i h);
  fresh = i.fresh;
  fine = i.fine;
}
Step-IsQuiet (send q c before others e o lt) k i = record {
  early = λ h. absurd (less q c before others e (i.early h));
  stopped = λ h. absurd (less q c before others e (i.stopped h));
  order = λ h. absurd (true-ne-false o h);
  fresh = i.fresh;
  fine = i.fine;
}
Step-IsQuiet (drop q c before others e o le) k i = record {
  early = λ h. absurd (less q c before others e (i.early h));
  stopped = λ h. absurd (less q c before others e (i.stopped h));
  order = λ h. absurd (true-ne-false o h);
  fresh = i.fresh;
  fine = i.fine;
}
Step-IsQuiet (crash q c before others e o) k i = absurd (less q c before others e (i.order o))
Step-IsQuiet (mark q s m) k i = record {
  early = λ h. k;
  stopped = λ h. k;
  order = i.order;
  fresh = λ h. inl refl;
  fine = i.fine;
}
Step-IsQuiet (close q m c) k i = record {
  early = i.early;
  stopped = i.stopped;
  order = λ h. i.stopped m;
  fresh = λ h. inl m;
  fine = i.fine;
}
Step-IsQuiet (receive q c rest e) k i = record {
  early = i.early;
  stopped = i.stopped;
  order = i.order;
  fresh = i.fresh;
  fine = i.fine;
}

Reach-IsQuiet : {q : ChangeQueue} → (r : Reach new_queue q) → AllMarksIdle r → IsQuiet q
Reach-IsQuiet here k = record {
  early = λ h. refl;
  stopped = λ h. refl;
  order = λ h. refl;
  fresh = λ h. absurd (cc h);
  fine = refl;
}
Reach-IsQuiet (next r st) k = Step-IsQuiet st k.1 (Reach-IsQuiet r k.0)

-- From a new queue on, however its watcher is started, stopped or abandoned and the handlers go, no handler panics
-- on the closed channel, if none is between its look at the flag and its send when stopWatcher sets the flag.
pub Reach-no_panic :
    {q : ChangeQueue} → (r : Reach new_queue q) → AllMarksIdle r → q.panicked ≡ false
Reach-no_panic r k = (Reach-IsQuiet r k).fine
