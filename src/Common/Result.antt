-- ===== src/Common/Result.antt =====
-- A call that may throw: its value, or the exception.
use mathlib.Core.Path.{◌≡◌, refl}
use mathlib.Core.Logic.{◌⊎◌, inl, inr}

-- `geoml::ReturnCode` of geoml/error.h
pub data ReturnCode : Type 0 where
  generic_error : ReturnCode
  not_found : ReturnCode
  math_error : ReturnCode
  null_pointer : ReturnCode
  index_error : ReturnCode
  open_failed : ReturnCode

pub data Result {ℓ κ} (E : Type ℓ) (A : Type κ) : Type (ℓ ⊔ κ) where
  ok : A → Result E A
  err : E → Result E A

infixl 5 ◌>>=◌
abbrev pub ◌>>=◌ {ℓ κ μ} :
    {E : Type ℓ} {A : Type κ} {B : Type μ} → Result E A → (A → Result E B) → Result E B
ok a >>= f = f a
err e >>= f = err e

pub Result-cases {ℓ κ} :
    {E : Type ℓ} {A : Type κ} (r : Result E A) → ((a : A) × (r ≡ ok a)) ⊎ ((e : E) × (r ≡ err e))
Result-cases (ok a) = inl (a, refl)
Result-cases (err e) = inr (e, refl)

module _ {ℓ κ} {E : Type ℓ} {A : Type κ} where
  pub ok-injective : {a b : A} → ◌≡◌ {A = Result E A} (ok a) (ok b) → a ≡ b
  ok-injective e = cc

  pub ok-ne-err : {a : A} {e : E} → ◌≡◌ {A = Result E A} (ok a) (err e) → ⊥
  ok-ne-err e = cc
