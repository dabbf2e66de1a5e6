-- ===== src/Middleware/Headers.antt =====
-- middleware/validation.go. `trim_space` is `strings.TrimSpace`, whose notion of white space is
-- Unicode's; a map of rules is the list of its entries in the order in which `range` visits them.
pub mod Passing
use quicframe.Prelude.{List, [], ◌∷◌, ◌++◌, Option, none, some, if◌then◌else◌, GoError, message}
use quicframe.Prelude.Text.{Text, codes, is_empty}
use quicframe.Protocol.Types.{status_bad_request}
use quicframe.Protocol.Codec.{Msgpack}
use quicframe.Framework.Context.{error, get_header}
use quicframe.Framework.Handler.{Run, Exit, HandlerFunc, MiddlewareFunc, perform}

-- `none` is a nil error.
abbrev pub HeaderRule : Type 0
HeaderRule = Text → Option GoError

module _ {H : Type 0} (mp : Msgpack) where
  abbrev pub bad_request : Text → HandlerFunc H
  bad_request message = perform (error mp status_bad_request message [])

  unfoldable pub require_headers : (Text → Text) → List Text → MiddlewareFunc H
  require_headers trim_space [] next r = next r
  require_headers trim_space (name ∷ names) next r =
      let rest = require_headers trim_space names next r in
      if is_empty (trim_space (get_header name r.ctx))
      then bad_request (codes "missing required header: " ++ name) r
      else rest

  unfoldable pub validate_headers : List (Text × HeaderRule) → MiddlewareFunc H
  validate_headers [] next r = next r
  validate_headers ((name, rule) ∷ rules) next r = elim (rule (get_header name r.ctx)) [
    | some e ↦ bad_request (message e) r
    | none ↦ validate_headers rules next r
  ]
