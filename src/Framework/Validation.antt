-- ===== src/Framework/Validation.antt =====
-- framework/validation.go and `BindAndValidate` of framework/context.go. The validator package is a
-- parameter, of which Validate uses the errors that it reports for a value.
pub mod Binding
mod Tests
use quicframe.Prelude.{
  ℕ, List, [], ◌∷◌, ◌++◌, Option, none, some, Result, ok, err, GoError, wrap, if◌then◌else◌,
}
use quicframe.Prelude.Text.{Text, codes, is_empty}
use quicframe.Protocol.Types.{Value}
use quicframe.Protocol.Codec.{Msgpack}
use quicframe.Framework.Context.{Context, bind}

pub record FieldError : Type 0 where
  pub field : Text
  pub tag : Text
  pub value : Text

-- What `Validator().Struct(v)` returns: nil, an InvalidValidationError, ValidationErrors with what
-- Field, Tag and Param say of each, or another error.
pub data Verdict : Type 0 where
  valid : Verdict
  not_a_struct : GoError → Verdict
  invalid : List FieldError → Verdict
  other : GoError → Verdict

-- The errors that the functions here return: plain ones, and `*ValidationError`.
pub data Failure : Type 0 where
  plain : GoError → Failure
  fields : List FieldError → Failure

-- One entry of the text of a ValidationError.
abbrev describe : FieldError → Text
describe f =
    if is_empty f.value
    then f.field ++ (codes " failed " ++ f.tag)
    else f.field ++ (codes " failed " ++ (f.tag ++ (codes "=" ++ f.value)))

-- `strings.Join(parts, ", ")`
abbrev join_parts : List FieldError → Text
join_parts [] = []
join_parts (f ∷ []) = describe f
join_parts (f ∷ g ∷ fs) = describe f ++ (codes ", " ++ join_parts (g ∷ fs))

-- `(*ValidationError).Error()`, where nil has no fields.
unfoldable pub validation_text : List FieldError → Text
validation_text [] = codes "validation failed"
validation_text (f ∷ fs) = codes "validation failed: " ++ join_parts (f ∷ fs)

from_verdict : Verdict → Option Failure
from_verdict valid = none
from_verdict (not_a_struct e) = some (plain (wrap (codes "quicframe: validate: ") e))
from_verdict (invalid fs) = some (fields fs)
from_verdict (other e) = some (plain (wrap (codes "quicframe: validate: ") e))

-- `Validate(v)`; `none` is nil, as a value and as an error.
unfoldable pub validate : (Value → Verdict) → Option Value → Option Failure
unfolding from_verdict
validate check none = none
validate check (some v) = from_verdict (check v)

-- The target after Bind: what was decoded, or what it was.
abbrev pub bound : Value → Option Value → Value
bound old none = old
bound old (some v) = v

after_bind : (Value → Verdict) → Value → Result (Option Value) → Option Failure
unfolding validate
after_bind check old (err e) = some (plain e)
after_bind check old (ok v) = validate check (some (bound old v))

-- `BindAndValidate(v)` for a target that held `old`.
unfoldable pub bind_and_validate : Msgpack → (Value → Verdict) → Value → Context → Option Failure
unfolding after_bind
bind_and_validate mp check old c = after_bind check old (bind mp c)
