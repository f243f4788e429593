-- ===== src/Prelude/Results.antt =====
-- What holds of the result of a computation that can fail, if it has one.
use mathlib.Core.Path.{◌≡◌, subst}
use mathlib.Core.Option.{Option, none, some}
use ndc_mock.Prelude.Tests.{◌>>=◌}

-- The result, if there is one, satisfies `P`.
abbrev pub Yields {ℓ κ} : {A : Type ℓ} → (A → Type κ) → Option A → Type κ
Yields P none = Unit
Yields P (some a) = P a

pub Yields-bind {ℓ κ μ ν} :
    {A : Type ℓ} {B : Type κ} (P : A → Type μ) (Q : B → Type ν) (o : Option A) (f : A → Option B)
    → Yields P o
    → ((a : A) → P a → Yields Q (f a))
    → Yields Q (o >>= f)
Yields-bind P Q none f h k = tt
Yields-bind P Q (some a) f h k = k a h

pub Yields-some {ℓ κ} :
    {A : Type ℓ} (P : A → Type κ) (o : Option A) (a : A) → Yields P o → o ≡ some a → P a
Yields-some P o a h e = subst (λ x. Yields P x) e h
