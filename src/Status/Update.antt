-- ===== src/Status/Update.antt =====
-- The loop by which the policy and the solution controllers write a status
-- (internal/controller/remediationpolicy_controller.go, `updatePolicyStatus`, and
-- internal/controller/solution_controller.go, `updateSolutionStatus`): a fresh copy is fetched, changed and
-- written, four times at most.
use dot_ai_controller.Prelude.{
  ℕ, zero, suc, ◌≤◌, ◌≡◌, refl, Bool, true, false, Option, none, some, List, [], ◌∷◌, if◌then◌else◌,
  length, arith,
}

pub data StatusError : Type 0 where
  cancelled fetch_failed conflicted write_failed : StatusError
  exhausted : StatusError → StatusError

pub data StatusReply : Type 0 where
  accepted conflict refused : StatusReply

-- What one attempt meets: whether the context is done while the backoff is waited for, the fresh copy,
-- `none` for an error, and the answer to the write of the changed one.
pub record StatusAttempt (S : Type 0) : Type 0 where
  pub cancelled_in_wait : Bool
  pub fresh : Option S
  pub answer : StatusReply

-- The error, `none` for nil, and the copies that were sent, with the answer to each.
abbrev pub StatusResult : Type 0 → Type 0
StatusResult S = Option StatusError × List (S × StatusReply)

abbrev pub max_status_retries : ℕ
max_status_retries = 3

-- 1 for success, 0 for an error.
abbrev pub success_count : Option StatusError → ℕ
success_count none = 1
success_count (some e) = 0

module _ {S : Type 0} where
  abbrev sending : S → StatusReply → StatusResult S → StatusResult S
  sending s r rest = (rest.0, (s, r) ∷ rest.1)

  after_answer : S → StatusReply → StatusResult S → StatusResult S
  after_answer s accepted rest = (none, (s, accepted) ∷ [])
  after_answer s refused rest = (some write_failed, (s, refused) ∷ [])
  after_answer s conflict rest = sending s conflict rest

  after_fetch : (S → S) → Option S → StatusReply → (StatusError → StatusResult S) → StatusResult S
  unfolding after_answer
  after_fetch change none answer go_on = go_on fetch_failed
  after_fetch change (some s) answer go_on = after_answer (change s) answer (go_on conflicted)

  -- The body of the loop, after `n` attempts; `go_on` is what follows a `continue`.
  status_attempt :
      (ℕ → S → S) → ℕ → StatusAttempt S → (StatusError → StatusResult S) → StatusResult S
  unfolding after_fetch
  status_attempt change zero a go_on = after_fetch (change zero) a.fresh a.answer go_on
  status_attempt change (suc n) a go_on =
      if a.cancelled_in_wait
      then (some cancelled, [])
      else after_fetch (change (suc n)) a.fresh a.answer go_on

  status_attempts : (ℕ → S → S) → (ℕ → StatusAttempt S) → ℕ → ℕ → StatusError → StatusResult S
  unfolding status_attempt
  status_attempts change world n zero last = (some (exhausted last), [])
  status_attempts change world n (suc left) last =
      status_attempt change n (world n) (λ e. status_attempts change world (suc n) left e)

  -- The last error before the first attempt is nil and never seen.
  unfoldable pub update_status : (ℕ → S → S) → (ℕ → StatusAttempt S) → StatusResult S
  unfolding status_attempts
  update_status change world = status_attempts change world 0 (suc max_status_retries) cancelled

  -- How often a written copy was accepted.
  abbrev pub accepted_count : List (S × StatusReply) → ℕ
  accepted_count [] = 0
  accepted_count ((s, accepted) ∷ sent) = suc (accepted_count sent)
  accepted_count ((s, conflict) ∷ sent) = accepted_count sent
  accepted_count ((s, refused) ∷ sent) = accepted_count sent

  -- The copies sent are the changed copies of fresh ones.
  abbrev pub AllChanged : (ℕ → S → S) → (ℕ → StatusAttempt S) → List (S × StatusReply) → Type 0
  AllChanged change world [] = Unit
  AllChanged change world ((s, r) ∷ sent) =
      ((n : ℕ) × (old : S) × ((world n).fresh ≡ some old) × (s ≡ change n old))
      × AllChanged change world sent

  record IsSound (change : ℕ → S → S) (world : ℕ → StatusAttempt S) (left : ℕ) (r : StatusResult S)
      : Type 0 where
    once : accepted_count r.1 ≡ success_count r.0
    few : length r.1 ≤ left
    changed : AllChanged change world r.1

  module _ (change : ℕ → S → S) (world : ℕ → StatusAttempt S) where
    after_fetch-IsSound :
        (n left : ℕ) (o : Option S) (answer : StatusReply) (go_on : StatusError → StatusResult S)
        → (world n).fresh ≡ o
        → ((e : StatusError) → IsSound change world left (go_on e))
        → IsSound change world (suc left) (after_fetch (change n) o answer go_on)
    unfolding after_fetch
    after_fetch-IsSound n left none answer go_on h k = record {
      once = (k fetch_failed).once;
      few = omega (arith, (k fetch_failed).few);
      changed = (k fetch_failed).changed;
    }
    after_fetch-IsSound n left (some s) accepted go_on h k = record {
      once = refl;
      few = omega arith;
      changed = ((n, s, h, refl), tt);
    }
    after_fetch-IsSound n left (some s) refused go_on h k = record {
      once = refl;
      few = omega arith;
      changed = ((n, s, h, refl), tt);
    }
    after_fetch-IsSound n left (some s) conflict go_on h k = record {
      once = (k conflicted).once;
      few = omega (arith, (k conflicted).few);
      changed = ((n, s, h, refl), (k conflicted).changed);
    }

    cancelled-IsSound : (left : ℕ) → IsSound change world left (some cancelled, [])
    cancelled-IsSound left = record { once = refl; few = omega arith; changed = tt }

    in_wait-IsSound :
        (n left : ℕ) (b : Bool) (go_on : StatusError → StatusResult S)
        → ((e : StatusError) → IsSound change world left (go_on e))
        → IsSound change world (suc left) (
            if b
            then (some cancelled, [])
            else after_fetch (change n) (world n).fresh (world n).answer go_on)
    in_wait-IsSound n left true go_on k = cancelled-IsSound (suc left)
    in_wait-IsSound n left false go_on k =
        after_fetch-IsSound n left (world n).fresh (world n).answer go_on refl k

    status_attempts-IsSound :
        (left n : ℕ) (last : StatusError)
        → IsSound change world left (status_attempts change world n left last)
    unfolding status_attempts
    status_attempts-IsSound zero n last = record { once = refl; few = omega arith; changed = tt }
    status_attempts-IsSound (suc left) zero last =
        after_fetch-IsSound 0 left (world 0).fresh (world 0).answer _ refl
          (λ e. status_attempts-IsSound left 1 e)
    status_attempts-IsSound (suc left) (suc n) last =
        in_wait-IsSound (suc n) left (world (suc n)).cancelled_in_wait _
          (λ e. status_attempts-IsSound left (suc (suc n)) e)

  -- The loop writes a change once: it ends without an error exactly if one write was accepted, and no two
  -- are; each of the four copies that it sends at most is the fresh one of
  -- an attempt with the change of that attempt.
  pub update_status-once :
      (change : ℕ → S → S) (world : ℕ → StatusAttempt S)
      → (accepted_count (update_status change world).1
          ≡ success_count (update_status change world).0)
        × (length (update_status change world).1 ≤ 4)
        × AllChanged change world (update_status change world).1
  unfolding update_status
  update_status-once change world =
      let k = status_attempts-IsSound change world 4 0 cancelled in (k.once, k.few, k.changed)
