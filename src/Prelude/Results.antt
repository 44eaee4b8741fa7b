-- ===== src/Prelude/Results.antt =====
-- Go's `(value, error)`, with the text of the error, and the wrapping by `fmt.Errorf("…: %w", err)`.
use mathlib.Core.Path.{◌≡◌, refl}
use mathlib.Core.Logic.{◌⊎◌, inl, inr}
use mathlib.Core.List.{◌++◌}
use dot_ai_controller.Prelude.Strings.{Text, codes}

pub data Result {ℓ} (A : Type ℓ) : Type ℓ where
  ok : A → Result A
  err : Text → Result A

infixl 5 ◌>>=◌
abbrev pub ◌>>=◌ {ℓ κ} : {A : Type ℓ} {B : Type κ} → Result A → (A → Result B) → Result B
ok a >>= f = f a
err e >>= f = err e

abbrev pub wrap : Text → Text → Text
wrap context e = context ++ codes ": " ++ e

abbrev pub wrapped {ℓ} : {A : Type ℓ} → Text → Result A → Result A
wrapped context (ok a) = ok a
wrapped context (err e) = err (wrap context e)

pub Result-cases {ℓ} :
    {A : Type ℓ} (r : Result A) → ((a : A) × (r ≡ ok a)) ⊎ ((e : Text) × (r ≡ err e))
Result-cases (ok a) = inl (a, refl)
Result-cases (err e) = inr (e, refl)

pub bind-ok {ℓ κ} :
    {A : Type ℓ} {B : Type κ} (r : Result A) (f : A → Result B) {b : B}
    → (r >>= f) ≡ ok b
    → (a : A) × (r ≡ ok a) × (f a ≡ ok b)
bind-ok (ok a) f h = (a, refl, h)
bind-ok (err e) f h = cc

pub wrapped-ok {ℓ} :
    {A : Type ℓ} (context : Text) (r : Result A) {a : A} → wrapped context r ≡ ok a → r ≡ ok a
wrapped-ok context (ok b) h = h
wrapped-ok context (err e) h = cc
