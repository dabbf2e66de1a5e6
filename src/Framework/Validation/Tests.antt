-- ===== src/Framework/Validation/Tests.antt =====
-- BindAndValidate at a concrete request.
use quicframe.Prelude.{◌≡◌, refl, [], ◌∷◌, some}
use quicframe.Prelude.Text.{codes}
use quicframe.Protocol.Types.{Value, bytes}
use quicframe.Framework.Context.{Context, bind}
use quicframe.Framework.Validation.{
  Verdict, FieldError, valid, invalid, fields, validation_text, bind_and_validate,
}
use quicframe.Samples.{toy}
use quicframe.Samples.Apps.{asked, context}

-- A request with a body of one byte.
abbrev posted : Context
posted = record context { request = record asked { body = 1 ∷ [] } }

abbrev too_short : FieldError
too_short = record { field = codes "Name"; tag = codes "min"; value = codes "3" }

-- A validator that wants a body of more than one byte.
abbrev check : Value → Verdict
check (bytes (a ∷ b ∷ bs)) = valid
check _ = invalid (too_short ∷ [])

posted_refused : bind_and_validate toy check (bytes []) posted ≡ some (fields (too_short ∷ []))
unfolding bind_and_validate bind
posted_refused = refl

too_short_text : validation_text (too_short ∷ []) ≡ codes "validation failed: Name failed min=3"
unfolding validation_text codes
too_short_text = refl
