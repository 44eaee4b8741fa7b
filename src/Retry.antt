-- ===== src/Retry.antt =====
-- The loop of attempts of the clients in internal/controller/capabilityscan_mcp.go (`sendWithRetry`) and
-- internal/controller/gitknowledgesource_mcp.go (`doRequestWithRetry`, `doDeleteRequestWithRetry`).
pub mod Backoff
use dot_ai_controller.Prelude.{ℕ, zero, suc, ◌+◌, ◌≤◌, ◌<◌, ◌≡◌, refl, ◌⊎◌, inl, inr, Text, arith}

-- How the body of the loop ends: with a value returned, or going on with a state and the last error.
pub data Round (S A : Type 0) : Type 0 where
  return : A → Round S A
  again : S → Text → Round S A

module _ {S A : Type 0} (round : ℕ → S → Round S A) (give_up : S → Text → A) where
  -- The loop from the attempt `n` on, with `left` attempts to make.
  unfoldable pub retry_from : ℕ → ℕ → S → Text → A
  retry_from n zero s last = give_up s last
  retry_from n (suc left) s last = elim (round n s) [
    | return a ↦ a
    | again s' e ↦ retry_from (suc n) left s' e
  ]

  Round-cases :
      (o : Round S A) → ((a : A) × (o ≡ return a)) ⊎ ((s : S) × (e : Text) × (o ≡ again s e))
  Round-cases (return a) = inl (a, refl)
  Round-cases (again s e) = inr (s, e, refl)

  -- What holds of every value that an attempt in range returns, and of giving up, holds of the result.
  pub retry_from-holds :
      (P : A → Type 0) (n left : ℕ) (s : S) (last : Text)
      → ((k : ℕ) (t : S) (a : A) → n ≤ k → k < n + left → round k t ≡ return a → P a)
      → ((t : S) (e : Text) → P (give_up t e))
      → P (retry_from n left s last)
  unfolding retry_from
  retry_from-holds P n zero s last r g = g s last
  retry_from-holds P n (suc left) s last r g = elim (Round-cases (round n s)) [
    | inl (a, e) ↦ rw (e, retry_from) (r n s a (omega arith) (omega arith) e)
    | inr (s', x, e) ↦
        rw (e, retry_from)
          (retry_from-holds P (suc n) left s' x (λ k t a lo hi. r k t a (omega arith) (omega arith))
            g)
  ]

  abbrev pub GoesOn : ℕ → Type 0
  GoesOn k = (t : S) → (s : S) × (e : Text) × (round k t ≡ again s e)

  -- The first attempt that returns ends the loop.
  pub retry_from-first :
      (P : A → Type 0) (d n left : ℕ) (s : S) (last : Text)
      → d < left
      → ((i : ℕ) → i < n + d → GoesOn i)
      → ((t : S) → (a : A) × (round (n + d) t ≡ return a) × P a)
      → P (retry_from n left s last)
  unfolding retry_from
  retry_from-first P d n zero s last lt f r = absurd (omega arith)
  retry_from-first P zero n (suc left) s last lt f r =
      let e : n + zero ≡ n = omega arith in let (a, p, q) = r s in rw (rw e at p, retry_from) q
  retry_from-first P (suc d) n (suc left) s last lt f r =
      let e : n + suc d ≡ suc n + d = omega arith in
      let (s', x, p) = f n (omega arith) s in
      rw (p, retry_from)
        (retry_from-first P d (suc n) left s' x (omega arith) (λ i lt. f i (omega arith))
          (λ t. let (a, p, q) = r t in (a, rw e at p, q)))

  -- The loop gives up if every attempt goes on.
  pub retry_from-exhausted :
      (n left : ℕ) (s : S) (last : Text)
      → ((i : ℕ) → i < n + left → GoesOn i)
      → (t : S) × (e : Text) × (retry_from n left s last ≡ give_up t e)
  unfolding retry_from
  retry_from-exhausted n zero s last f = (s, last, refl)
  retry_from-exhausted n (suc left) s last f =
      let (s', x, p) = f n (omega arith) s in
      let (t, e, q) = retry_from-exhausted (suc n) left s' x (λ i lt. f i (omega arith)) in
      (t, e, rw (p, retry_from) q)
