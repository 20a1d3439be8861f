-- ===== src/Prelude/Failure.antt =====
-- Results of code that may return an error or panic.
use mathlib.Core.Path.{◌≡◌, refl}
use mathlib.Core.Option.{Option, none, some}

pub data Outcome {ℓ κ} (E : Type κ) (A : Type ℓ) : Type (ℓ ⊔ κ) where
  ok : A → Outcome E A
  err : E → Outcome E A
  panicked : Outcome E A

module _ {ℓ κ} {E : Type κ} where
  infixl 5 ◌>>=◌
  abbrev pub ◌>>=◌ : {A : Type ℓ} {B : Type ℓ} → Outcome E A → (A → Outcome E B) → Outcome E B
  ok a >>= f = f a
  err e >>= f = err e
  panicked >>= f = panicked

  -- `expect` and `unwrap` of an `Option`.
  abbrev pub expect : {A : Type ℓ} → Option A → Outcome E A
  expect none = panicked
  expect (some a) = ok a

  -- What a computation that succeeds has gone through: its first step has succeeded.
  module _ {A B : Type ℓ} (step : Outcome E A) (next : A → Outcome E B) {result : B} where
    pub >>=-eq-ok :
        (step >>= next) ≡ ok result → (value : A) × (step ≡ ok value) × (next value ≡ ok result)
    >>=-eq-ok h =
        elim step
            as (λ m.
              (m >>= next) ≡ ok result → (value : A) × (m ≡ ok value) × (next value ≡ ok result)) [
                | panicked ↦ λ none_left. cc
                | err e ↦ λ none_left. cc
                | ok value ↦ λ later. (value, refl, later)
              ]
          h

module _ {ℓ κ} {E : Type κ} {A : Type ℓ} where
  pub expect-eq-ok : (o : Option A) {a : A} → expect {E = E} o ≡ ok a → o ≡ some a
  expect-eq-ok none h = cc
  expect-eq-ok (some b) h = cc

  pub ok-injective : {a b : A} → ◌≡◌ {A = Outcome E A} (ok a) (ok b) → a ≡ b
  ok-injective h = cc
