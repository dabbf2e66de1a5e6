-- ===== src/Examples/MtlsPki.antt =====
-- examples/mtls-pki/main.go: the app whose one route is behind MTLSAuth. `show` is what %s prints of
-- a local that is neither a string nor missing.
mod Tests
use quicframe.Prelude.{
  ℕ, ◌≡◌, ◌≢◌, refl, List, [], ◌∷◌, ◌++◌, Option, none, some, Result, ◌⊎◌, inl, inr, ap, sym, ◌∙◌,
}
use quicframe.Prelude.Text.{Text, codes}
use quicframe.Prelude.Dict
use quicframe.Prelude.Dict.{lookup-insert_self}
use quicframe.Protocol.Types.{Value, text}
use quicframe.Protocol.Codec.{Msgpack}
use quicframe.Framework.Context
use quicframe.Framework.Context.{send, get}
use quicframe.Framework.Handler.{Run, Exit, HandlerFunc, MiddlewareFunc, perform, apply_middleware}
use quicframe.Framework.Handler.Order.{apply_middleware-cons, apply_middleware-nil}
use quicframe.Framework.App
use quicframe.Framework.App.{App, Deps, use_middleware}
use quicframe.Middleware.Auth.{mtls_auth, unauthorized, with_local}
use quicframe.Middleware.Auth.Mtls.{peer_identity, mtls_auth-decides}
use quicframe.Middleware.Logger.{LogHost, logger, log_exit}

module _ (show : Value → Text) where
  abbrev printed : Option Value → Text
  printed none = codes "%!s(<nil>)"
  printed (some (text t)) = t
  printed (some v) = show v

  abbrev pub greeting : Option Value → Text
  greeting id = codes "Hello, " ++ (printed id ++ codes "! Access granted via mTLS.")

module _ {H : Type 0} (deps : Deps) (show : Value → Text) where
  abbrev pub secure : HandlerFunc H
  secure r = perform (send deps.msgpack 200 (greeting show (get (codes "node_id") r.ctx))) r

-- The run with the peer's identity among the locals.
abbrev pub identified : {H : Type 0} → Run H → Run H
identified r = with_local (codes "node_id") (text (peer_identity r)) r

module _ {H : Type 0} (deps : Deps) (show : Value → Text) (at : LogHost H) where
  unfoldable pub mtls_app : App H
  mtls_app = App.get deps (codes "/secure") (secure deps show) (
      use_middleware (logger at ∷ []) (use_middleware (mtls_auth deps.msgpack ∷ []) (App.new deps)))

  module _ (r : Run H) where
    wrapped :
        apply_middleware (secure deps show) mtls_app.middleware
        ≡ mtls_auth deps.msgpack (logger at (secure deps show))
    unfolding mtls_app App.get App.add_route use_middleware App.new
    wrapped =
        apply_middleware-cons (secure deps show) (mtls_auth deps.msgpack) (logger at ∷ [])
        ∙ ap (mtls_auth deps.msgpack) (
            apply_middleware-cons (secure deps show) (logger at) []
            ∙ ap (logger at) (apply_middleware-nil (secure deps show)))

    greets :
        logger at (secure deps show) (identified r)
        ≡ log_exit at (at.now r.host) (
            perform
              (send deps.msgpack 200
                (codes "Hello, " ++ (peer_identity r ++ codes "! Access granted via mTLS.")))
              (identified r))
    unfolding logger get Context.set
    greets =
        ap
          (λ id.
            log_exit at (at.now r.host)
              (perform (send deps.msgpack 200 (greeting show id)) (identified r)))
          (lookup-insert_self (codes "node_id") (text (peer_identity r)) r.ctx.locals)

    -- A peer is let in exactly when its first certificate has a common name: then /secure, behind
    -- the app's middleware, greets it by that name and logs the request. For any other peer the
    -- result is that of an error reply with code 401, and nothing is logged.
    pub secure-decides :
        ((peer_identity r ≢ [])
          × (apply_middleware (secure deps show) mtls_app.middleware r
              ≡ log_exit at (at.now r.host) (
                  perform
                    (send deps.msgpack 200
                      (codes "Hello, " ++ (peer_identity r ++ codes "! Access granted via mTLS.")))
                    (identified r))))
        ⊎ ((peer_identity r ≡ [])
            × ((m : Text) × (apply_middleware (secure deps show) mtls_app.middleware r
                  ≡ unauthorized deps.msgpack m r)))
    secure-decides = elim (mtls_auth-decides deps.msgpack (logger at (secure deps show)) r) [
      | inl (there, admitted) ↦ inl (there, ap (λ h. h r) wrapped ∙ admitted ∙ greets)
      | inr (missing, out) ↦ inr (missing, (out.0, ap (λ h. h r) wrapped ∙ out.1))
    ]
