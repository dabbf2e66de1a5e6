-- ===== src/Middleware/Recovery/Shutdown.antt =====
-- Recovery and the shutdown of the whole server.
use quicframe.Prelude.{◌≡◌, List, [], ◌∷◌, some, length, ◌==◌, ap}
use quicframe.Framework.Handler.{MiddlewareFunc}
use quicframe.Framework.App.{App, Deps}
use quicframe.Framework.App.Crashes.{dispatch_stream-crash}
use quicframe.Framework.App.Serving.{Server, Event, idle, run, shutdown_returns}
use quicframe.Framework.App.Serving.Shutdown.{opened}
use quicframe.Framework.App.Serving.Draining.{run-drains}
use quicframe.Middleware.Recovery.{recovery}
use quicframe.Middleware.Recovery.Guarantee.{handle_request-survives}

module _ {H : Type 0} (deps : Deps) (app : App H) (inner : List (MiddlewareFunc H)) where
  -- In an app whose first middleware is Recovery and that has no after-middleware, only goroutines
  -- that are stuck keep Shutdown from returning: from every state of a run that starts at rest, with
  -- no further connection or stream, the goroutines that are not stuck can finish one after the
  -- other, panics included, until the wait group counts the stuck ones alone; then Shutdown returns
  -- exactly if there are none.
  pub recovery-drains :
      (es : List Event) (host : H) (s : Server H)
      → app.middleware ≡ recovery deps.msgpack ∷ inner
      → app.after_middleware ≡ []
      → run deps app es (idle host) ≡ some s
      → (fs : List Event) × (s' : Server H) × (opened fs ≡ 0)
        × (run deps app fs s ≡ some s')
        × (s'.stuck ≡ s.stuck)
        × (s'.wg ≡ length s.stuck)
        × (shutdown_returns s' ≡ (length s.stuck == 0))
  recovery-drains es host s outermost no_after h =
      let (fs, s', none_opened, ran, held, counted) =
        run-drains deps app
          (dispatch_stream-crash deps app (λ req peer stream host.
            handle_request-survives deps app req peer stream host inner outermost no_after))
          es host s h in
      (fs, s', none_opened, ran, held, counted, ap (λ n. n == 0) counted)
