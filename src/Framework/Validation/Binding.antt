-- ===== src/Framework/Validation/Binding.antt =====
-- Which requests BindAndValidate lets through.
use quicframe.Prelude.{◌≡◌, ◌↔◌, refl, Option, none, Result, ok, err, ok_injective, ap, ◌∙◌}
use quicframe.Protocol.Types.{Value}
use quicframe.Protocol.Codec.{Msgpack}
use quicframe.Framework.Context.{Context, bind}
use quicframe.Framework.Validation.{
  Verdict, valid, not_a_struct, invalid, other, from_verdict, validate, bound, after_bind,
  bind_and_validate,
}

from_verdict-valid : (x : Verdict) → from_verdict x ≡ none → x ≡ valid
unfolding from_verdict
from_verdict-valid valid h = refl
from_verdict-valid (not_a_struct e) h = cc
from_verdict-valid (invalid fs) h = cc
from_verdict-valid (other e) h = cc

module _ (check : Value → Verdict) (old : Value) where
  after_bind_iff :
      (x : Result (Option Value))
      → (after_bind check old x ≡ none)
        ↔ ((v : Option Value) × (x ≡ ok v) × (check (bound old v) ≡ valid))
  unfolding after_bind validate from_verdict
  after_bind_iff (err e) = (λ h. cc, λ (v, same, h). cc)
  after_bind_iff (ok v) = (
    λ h. (v, refl, from_verdict-valid (check (bound old v)) h),
    λ (w, same, h). ap from_verdict (ap (λ u. check (bound old u)) (ok_injective same) ∙ h),
  )

  -- BindAndValidate succeeds exactly when Bind does and the validator accepts the target then: the
  -- decoded value or, for an empty body, what the target held.
  pub bind_and_validate_iff :
      (mp : Msgpack) (c : Context)
      → (bind_and_validate mp check old c ≡ none)
        ↔ ((v : Option Value) × (bind mp c ≡ ok v) × (check (bound old v) ≡ valid))
  unfolding bind_and_validate
  bind_and_validate_iff mp c = after_bind_iff (bind mp c)
