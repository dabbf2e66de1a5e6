-- ===== src/Middleware/Logger/Panics.antt =====
-- Logger beside Recovery: which requests are logged.
use quicframe.Prelude.{◌≡◌, [], ◌∷◌, ◌++◌, ap, ◌∙◌}
use quicframe.Prelude.Text.{Text, codes}
use quicframe.Protocol.Types.{status_internal_server_error}
use quicframe.Protocol.Codec.{Msgpack}
use quicframe.Framework.Context
use quicframe.Framework.Handler.{Run, Exit, panicked, HandlerFunc, perform, apply_middleware}
use quicframe.Framework.Handler.Order.{apply_middleware-cons, apply_middleware-nil}
use quicframe.Middleware.Recovery.{recovery}
use quicframe.Middleware.Recovery.Guarantee.{recovery-panicked}
use quicframe.Middleware.Logger.{LogHost, line_of, log_exit, logger}

module _ {H : Type 0} (mp : Msgpack) (at : LogHost H) (h : HandlerFunc H) (r : Run H) where
  -- The reply of Recovery.
  abbrev pub recovered : Text → Run H → Run H × Exit
  recovered m s =
      perform
        (Context.error mp status_internal_server_error (codes "internal server error: " ++ m) []) s

  -- When the handler panics and Recovery comes before Logger, nothing is logged and the reply is
  -- Recovery's. When Logger comes before Recovery, the client gets the same reply, and one line is
  -- logged: what Recovery returned, at the level of that result.
  pub logger-recovery :
      (s : Run H) (m : Text)
      → h r ≡ (s, panicked m)
      → (apply_middleware h (recovery mp ∷ logger at ∷ []) r ≡ recovered m s)
        × (apply_middleware h (logger at ∷ recovery mp ∷ []) r ≡ (
          record (recovered m s).0 {
            host =
                at.log
                  (line_of at
                    (at.now r.host)
                    (recovered m s).0
                    (Context.error mp status_internal_server_error
                      (codes "internal server error: " ++ m)
                      []
                      s.ctx).1)
                  s.host;
          },
          (recovered m s).1,
        ))
  unfolding logger log_exit
  logger-recovery s m panics =
      let unwound = ap (log_exit at (at.now r.host)) panics in
      let caught = recovery-panicked mp h r s m panics in
      (
        ap (λ f. f r)
              (apply_middleware-cons h (recovery mp) (logger at ∷ [])
                ∙ ap (recovery mp) (
                    apply_middleware-cons h (logger at) []
                    ∙ ap (logger at) (apply_middleware-nil h)))
            ∙ recovery-panicked mp (logger at h) r s m unwound,
        ap (λ f. f r)
              (apply_middleware-cons h (logger at) (recovery mp ∷ [])
                ∙ ap (logger at) (
                    apply_middleware-cons h (recovery mp) []
                    ∙ ap (recovery mp) (apply_middleware-nil h)))
            ∙ ap (log_exit at (at.now r.host)) caught,
      )
