-- ===== src/Retry/Backoff.antt =====
-- internal/controller/gitknowledgesource_mcp.go (`calculateBackoff`): the wait before a retry, in nanoseconds, an
-- int64. The addition of the jitter, a float64, and its conversion to an int64 are a parameter.
use dot_ai_controller.Prelude.{
  Bool, ◌+◌, ℕ, zero, suc, ◌-◌, ◌*◌, ◌^◌, ◌%◌, ◌≤◌, ◌<◌, ◌≡◌, refl, sym, ap, ◌∙◌, true, false, ltb,
  if◌then◌else◌, arith,
}
use native.Mathlib.Decide.{dec_lt}
use native.Mathlib.Nat.{pow-succ', mul_assoc}

-- An int64, as the word of its 64 bits: from 2 ^ 63 on it is below zero.
abbrev pub sign_bit : ℕ
sign_bit = 9223372036854775808

abbrev pub word_bound : ℕ
word_bound = 18446744073709551616

-- `a > b` of two int64.
unfoldable pub greater64 : ℕ → ℕ → Bool
greater64 a b = ltb ((b + sign_bit) % word_bound) ((a + sign_bit) % word_bound)

unfoldable pub double64 : ℕ → ℕ
double64 b = (b * 2) % word_bound

-- `for i := 1; i < attempt; i++ { backoff *= 2; if backoff > max { backoff = max; break } }`, with the number
-- of rounds that are left.
double_up_to : ℕ → ℕ → ℕ → ℕ
unfolding greater64 double64
double_up_to max zero backoff = backoff
double_up_to max (suc rounds) backoff =
    let more = double_up_to max rounds (double64 backoff) in
    if greater64 (double64 backoff) max then max else more

-- `jitter` is the conversion of the sum with the jitter to a duration.
unfoldable pub calculate_backoff : (ℕ → ℕ) → ℕ → ℕ → ℕ → ℕ
unfolding double_up_to greater64
calculate_backoff jitter initial max attempt =
    let jittered = jitter (double_up_to max (attempt - 1) initial) in
    if greater64 jittered max then max else jittered

-- The lesser of a duration and the largest one.
abbrev pub cap : ℕ → ℕ → ℕ
cap max backoff = if ltb max backoff then max else backoff

pow-positive : (n : ℕ) → 1 ≤ 2 ^ n
pow-positive zero = omega arith
pow-positive (suc n) = omega (arith, pow-positive n)

le-mul : (a p : ℕ) → 1 ≤ p → a ≤ a * p
le-mul a zero h = absurd (omega arith)
le-mul a (suc p) h = omega arith

cap-beyond : (max a p : ℕ) → max < a → 1 ≤ p → cap max (a * p) ≡ max
cap-beyond max a p lt h = ground (arith, le-mul a p h)

ltb-true : (a b : ℕ) → a < b → ltb a b ≡ true
ltb-true a b h = ground arith

ltb-false : (a b : ℕ) → ¬ (a < b) → ltb a b ≡ false
ltb-false a b h = ground arith

pow-double : (n b : ℕ) → b * 2 ^ suc n ≡ (b * 2) * 2 ^ n
pow-double n b = ap (λ (x : ℕ). b * x) (pow-succ' 2 n) ∙ sym (mul_assoc b 2 (2 ^ n))

capped : (b max : ℕ) → greater64 (if greater64 b max then max else b) max ≡ false
unfolding greater64
capped b max = ground arith

double64-small : (b : ℕ) → b < 4611686018427387904 → double64 b ≡ b * 2
unfolding double64
double64-small b h = omega arith

ltb-shift : (a b k : ℕ) → ltb (a + k) (b + k) ≡ ltb a b
ltb-shift a b k = ground arith

greater64-small : (a b : ℕ) → a < sign_bit → b < sign_bit → greater64 a b ≡ ltb b a
unfolding greater64
greater64-small a b ha hb =
    let e : (a + sign_bit) % word_bound ≡ a + sign_bit = omega arith in
    let f : (b + sign_bit) % word_bound ≡ b + sign_bit = omega arith in
    rw (e, f) (ltb-shift b a sign_bit)

double_up_to-cap :
    (max rounds backoff : ℕ)
    → max < 4611686018427387904
    → backoff ≤ max
    → double_up_to max rounds backoff ≡ cap max (backoff * 2 ^ rounds)
unfolding double_up_to
double_up_to-cap max zero backoff m h = ground arith
double_up_to-cap max (suc rounds) backoff m h =
    rw
      (
        pow-double rounds backoff,
        double64-small backoff (omega arith),
        greater64-small (backoff * 2) max (omega arith) (omega arith),
      )
      (elim (dec_lt max (backoff * 2)) [
        | yes more ↦
            rw
              (
                ltb-true max (backoff * 2) more,
                cap-beyond max (backoff * 2) (2 ^ rounds) more (pow-positive rounds),
              )
              refl
        | no less ↦
            rw (ltb-false max (backoff * 2) less)
              (double_up_to-cap max rounds (backoff * 2) m (omega arith))
      ])

-- If the initial backoff is at most the largest, and the largest is less than 2 ^ 62 nanoseconds (146 years; the
-- default is 30 seconds), the doubling does not overflow: the wait before a retry is the initial one times
-- 2 ^ (attempt - 1), or the largest if that is less, then with the jitter, and the largest again if the int64 that
-- the jitter makes exceeds it; whatever the jitter is, the wait does not exceed the largest.
pub calculate_backoff-doubles :
    (jitter : ℕ → ℕ) (initial max attempt : ℕ)
    → initial ≤ max
    → max < 4611686018427387904
    → (let jittered = jitter (cap max (initial * 2 ^ (attempt - 1))) in
        calculate_backoff jitter initial max attempt
        ≡ (if greater64 jittered max then max else jittered))
      × (greater64 (calculate_backoff jitter initial max attempt) max ≡ false)
unfolding calculate_backoff
calculate_backoff-doubles jitter initial max attempt h m = (
  ap (λ (b : ℕ). if greater64 (jitter b) max then max else jitter b)
      (double_up_to-cap max (attempt - 1) initial m h),
  capped (jitter (double_up_to max (attempt - 1) initial)) max,
)
