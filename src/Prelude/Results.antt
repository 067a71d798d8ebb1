-- ===== src/Prelude/Results.antt =====
-- A Go pair (value, error) of which exactly one is meant.
use mathlib.Core.Path.{◌≡◌, refl}
use mathlib.Core.Logic.{◌⊎◌, inl, inr}
use mathlib.Core.Bool.{Bool, true, false}

pub data Result {ℓ} (E : Type 0) (A : Type ℓ) : Type ℓ where
  ok : A → Result E A
  err : E → Result E A

infixl 5 ◌>>=◌
abbrev pub ◌>>=◌ {ℓ κ} :
    {E : Type 0} {A : Type ℓ} {B : Type κ} → Result E A → (A → Result E B) → Result E B
ok a >>= f = f a
err e >>= f = err e

-- err == nil
abbrev pub is_ok {ℓ} : {E : Type 0} {A : Type ℓ} → Result E A → Bool
is_ok (ok a) = true
is_ok (err e) = false

pub Result-cases {ℓ} :
    {E : Type 0} {A : Type ℓ} (r : Result E A) → ((e : E) × (r ≡ err e)) ⊎ ((a : A) × (r ≡ ok a))
Result-cases (ok a) = inr (a, refl)
Result-cases (err e) = inl (e, refl)

-- A chain that ends well had a first value.
pub first_value {ℓ κ} :
    {E : Type 0} {V : Type ℓ} {W : Type κ} (rest : V → Result E W) (first : Result E V) (w : W)
    → (first >>= rest) ≡ ok w
    → (v : V) × (rest v ≡ ok w) × (first ≡ ok v)
first_value rest (err x) w e = cc e
first_value rest (ok v) w e = (v, e, refl)
