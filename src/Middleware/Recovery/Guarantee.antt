-- ===== src/Middleware/Recovery/Guarantee.antt =====
-- What Recovery as the outermost middleware guarantees to the dispatcher.
use quicframe.Prelude.{◌≡◌, refl, false, List, [], ◌∷◌, ◌++◌, none, Result, ok, ap, ◌∙◌}
use quicframe.Prelude.Text.{Text, Bytes, codes}
use quicframe.Protocol.Types.{Request, error, frame_type_error, status_internal_server_error}
use quicframe.Protocol.Stream.{Stream}
use quicframe.Protocol.Codec.Frames.{frame, Fits}
use quicframe.Protocol.Codec.{Msgpack}
use quicframe.Framework.Context
use quicframe.Framework.Context.{Peer}
use quicframe.Framework.Context.Results.{error-ok}
use quicframe.Framework.Handler.{
  Run, Exit, returned, panicked, HandlerFunc, MiddlewareFunc, perform, apply_middleware,
}
use quicframe.Framework.Handler.Order.{apply_middleware-cons}
use quicframe.Framework.App.{App, Deps, done, handle_request, routed, request_run}
use quicframe.Framework.App.NotFound.{served, handle_request-crash, handle_request-returned}
use quicframe.Middleware.Recovery.{recovery, recover}

-- A panic of what Recovery wraps becomes its error reply.
pub recovery-panicked :
    {H : Type 0} (mp : Msgpack) (next : HandlerFunc H) (r s : Run H) (m : Text)
    → next r ≡ (s, panicked m)
    → recovery mp next r
      ≡ perform
          (Context.error mp status_internal_server_error (codes "internal server error: " ++ m) [])
          s
unfolding recovery recover
recovery-panicked mp next r s m panics = ap (recover mp) panics

recover-returned :
    {H : Type 0} (deps : Deps) (x : Run H × Exit)
    → (r : Run H) × (e : Result (Unit {0})) × (recover deps.msgpack x ≡ (r, returned e))
unfolding recover
recover-returned deps (r, panicked m) = (_, _, refl)
recover-returned deps (r, returned e) = (r, e, refl)

module _ {H : Type 0} (deps : Deps) (app : App H) (req : Request) (peer : Peer) (s : Stream)
    (host : H) (inner : List (MiddlewareFunc H))
    (outermost : app.middleware ≡ recovery deps.msgpack ∷ inner)
    (no_after : app.after_middleware ≡ []) where
  -- What the rest of the chain does with the request.
  abbrev pub inside : Run H × Exit
  inside = apply_middleware (routed deps app req).0 inner (request_run deps app req peer s host)

  served-recover : served deps app req peer s host ≡ recover deps.msgpack inside
  unfolding recovery
  served-recover =
      let run = request_run deps app req peer s host in
      ap (λ m. apply_middleware (routed deps app req).0 m run) outermost
      ∙ ap (λ h. h run)
          (apply_middleware-cons (routed deps app req).0 (recovery deps.msgpack) inner)

  -- In an app whose first middleware is Recovery and that has no after-middleware, no request
  -- crashes the goroutine, whatever the other middleware and the handler do, panics included.
  pub handle_request-survives : (handle_request deps app req peer s host).crash ≡ none
  handle_request-survives =
      let (r, e, returns) = recover-returned deps inside in
      handle_request-crash deps app req peer s host r e no_after (served-recover ∙ returns)

  -- In an app whose first middleware is Recovery and that has no after-middleware, a panic before
  -- any reply is answered by one error frame with code 500 and the panic's text, nothing is logged
  -- as failed, and the application keeps the state that the handler left. The frame encodes, fits
  -- and is written.
  pub handle_request-recovers :
      (r : Run H) (m : Text) (reply : Bytes)
      → inside ≡ (r, panicked m)
      → r.ctx.sent ≡ false
      → deps.msgpack.marshal (
          error (record {
            id = r.ctx.request.id;
            code = status_internal_server_error;
            message = codes "internal server error: " ++ m;
            payload = [];
          }))
        ≡ ok reply
      → Fits reply
      → r.ctx.stream.faults ≡ []
      → handle_request deps app req peer s host
        ≡ done
            (record r.ctx.stream { output = r.ctx.stream.output ++ frame frame_type_error reply })
            r.host
            []
  unfolding recover
  handle_request-recovers r m reply panics unsent encodes fits clean =
      handle_request-returned deps app req peer s host _ no_after (
        served-recover
        ∙ ap (recover deps.msgpack) panics
        ∙ ap (λ x. (record { ctx = x.0; host = r.host }, returned x.1))
            (error-ok deps.msgpack r.ctx unsent status_internal_server_error
              (codes "internal server error: " ++ m) reply encodes fits clean))
