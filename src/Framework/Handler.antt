-- ===== src/Framework/Handler.antt =====
-- framework/router.go: handlers and middleware. A handler runs on a context and on the state of the
-- application around it, of any type `H`; it returns an error value or panics.
pub mod Order
use quicframe.Prelude.{ℕ, List, [], ◌∷◌, Result}
use quicframe.Prelude.Text.{Text}
use quicframe.Framework.Context.{Context, Act}
use mathlib.Core.List.{reverse}

pub record Run (H : Type 0) : Type 0 where
  pub ctx : Context
  pub host : H

-- How a call ends; `returned (ok tt)` is a nil error.
pub data Exit : Type 0 where
  returned : Result (Unit {0}) → Exit
  panicked : Text → Exit

abbrev pub HandlerFunc : Type 0 → Type 0
HandlerFunc H = Run H → Run H × Exit

abbrev pub MiddlewareFunc : Type 0 → Type 0
MiddlewareFunc H = HandlerFunc H → HandlerFunc H

-- A handler that is one method call on the context, `return ctx.Method(…)`.
abbrev pub perform : {H : Type 0} → Act (Unit {0}) → HandlerFunc H
perform act r = (record { ctx = (act r.ctx).0; host = r.host }, returned (act r.ctx).1)

-- The loop of `applyMiddleware`, over the middleware from the last to the first.
wrap_each : {H : Type 0} → HandlerFunc H → List (MiddlewareFunc H) → HandlerFunc H
wrap_each handler [] = handler
wrap_each handler (m ∷ ms) = wrap_each (m handler) ms

unfoldable pub apply_middleware :
    {H : Type 0} → HandlerFunc H → List (MiddlewareFunc H) → HandlerFunc H
unfolding wrap_each
apply_middleware handler mw = wrap_each handler (reverse mw)
