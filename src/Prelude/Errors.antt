-- ===== src/Prelude/Errors.antt =====
-- Go's error values and fallible results.
use mathlib.Core.List.{◌++◌}
use mathlib.Core.Path.{◌≡◌, refl}
use mathlib.Core.Logic.{◌⊎◌, inl, inr}
use quicframe.Prelude.Text.{Text}

-- `new m` is an error with that message, `wrap p e` is `fmt.Errorf(p + "%w", e)`.
pub data GoError : Type 0 where
  new : Text → GoError
  wrap : Text → GoError → GoError

-- The method `Error()`.
unfoldable pub message : GoError → Text
message (new m) = m
message (wrap p e) = p ++ message e

pub data Result {ℓ} (A : Type ℓ) : Type ℓ where
  ok : A → Result A
  err : GoError → Result A

pub Result-cases {ℓ} :
    {A : Type ℓ} (r : Result A) → ((a : A) × (r ≡ ok a)) ⊎ ((e : GoError) × (r ≡ err e))
Result-cases (ok a) = inl (a, refl)
Result-cases (err e) = inr (e, refl)

pub ok_injective {ℓ} : {A : Type ℓ} {a b : A} → ok a ≡ ok b → a ≡ b
ok_injective h = cc
