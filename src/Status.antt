-- ===== src/Status.antt =====
-- The Ready condition, which the status writers of the policy, solution, capability scan and resource
-- sync controllers replace or append by the same loop (internal/controller/solution_controller.go).
pub mod Update
use dot_ai_controller.Prelude.{
  ℕ, ◌+◌, ◌≤◌, ◌≡◌, refl, Bool, Option, none, some, List, [], ◌∷◌, Text, codes, text_eq, text_dec,
  ◌==◌, if◌then◌else◌, length, arith,
}

pub record Condition : Type 0 where
  pub type : Text
  pub status : Bool
  pub last_transition_time : ℕ
  pub reason : Text
  pub message : Text

abbrev pub ready : Text
ready = codes "Ready"

-- The condition that a reader of the status finds: the first one of the type.
unfoldable pub find_condition : Text → List Condition → Option Condition
find_condition t [] = none
find_condition t (c ∷ cs) = if c.type == t then some c else find_condition t cs

-- `for i, c := range conditions { if c.Type == new.Type { conditions[i] = new; break } }`, and an
-- append if none was found.
unfoldable pub put_condition : Condition → List Condition → List Condition
put_condition new [] = new ∷ []
put_condition new (c ∷ cs) = if c.type == new.type then new ∷ cs else c ∷ put_condition new cs

-- A reader finds the condition that was put, and of every other type what was there before.
pub find-put_condition :
    (new : Condition) (t : Text) (cs : List Condition)
    → find_condition t (put_condition new cs)
      ≡ (if new.type == t then some new else find_condition t cs)
unfolding find_condition put_condition
find-put_condition new t [] = refl
find-put_condition new t (c ∷ cs) = ground (arith, find-put_condition new t cs)

-- At most one condition is added.
pub length-put_condition :
    (new : Condition) (cs : List Condition) → length (put_condition new cs) ≤ length cs + 1
unfolding put_condition
length-put_condition new [] = omega arith
length-put_condition new (c ∷ cs) = ground (arith, length-put_condition new cs)
