-- ===== src/Framework/App/NotFound.antt =====
-- The dispatcher's answer when no handler replies: no route, or an error value from the handler.
use quicframe.Prelude.{
  ◌≡◌, refl, true, false, [], ◌∷◌, ◌++◌, none, Result, ok, err, GoError, message, ap, ap₂, ◌∙◌, All,
}
use quicframe.Prelude.Text.{Bytes, codes}
use quicframe.Protocol.Types.{Request, error, frame_type_error, status_internal_server_error}
use quicframe.Protocol.Stream.{Stream}
use quicframe.Protocol.Codec.{write_error}
use quicframe.Protocol.Codec.Frames.{frame, Fits, write_frame-ok}
use quicframe.Framework.Context.{Peer, new_context, set_params, set_query_params}
use quicframe.Framework.Context.Results.{error-ok, appended}
use quicframe.Framework.Handler.{Run, Exit, returned, apply_middleware, perform}
use quicframe.Framework.Handler.Order.{apply_middleware-nil}
use quicframe.Framework.Router.{no_route}
use quicframe.Framework.Router.Choice.{Misses}
use quicframe.Framework.Router.First.{match-absent}
use quicframe.Framework.App.{
  App, Deps, handler_failed, done, handle_request, routed, request_url, request_run, finish,
}

module _ {H : Type 0} (deps : Deps) (app : App H) (req : Request) (peer : Peer) (s : Stream)
    (host : H) where
  -- What the wrapped handler does with the request.
  abbrev pub served : Run H × Exit
  served =
      apply_middleware (routed deps app req).0 app.middleware (request_run deps app req peer s host)

  -- An error value from the wrapped handler that has sent nothing is answered by one error frame
  -- with code 500, the request's id and the error's text, and is logged. There is no
  -- after-middleware, and the frame encodes, fits and is written.
  pub handle_request-failure :
      (r : Run H) (e : GoError) (reply : Bytes)
      → app.after_middleware ≡ []
      → served ≡ (r, returned (err e))
      → r.ctx.sent ≡ false
      → deps.msgpack.marshal (
          error (record {
            id = req.id;
            code = status_internal_server_error;
            message = message e;
            payload = [];
          }))
        ≡ ok reply
      → Fits reply
      → r.ctx.stream.faults ≡ []
      → handle_request deps app req peer s host
        ≡ done
            (record r.ctx.stream { output = r.ctx.stream.output ++ frame frame_type_error reply })
            r.host
            (handler_failed req.method req.path e ∷ [])
  unfolding handle_request write_error
  handle_request-failure r e reply after failed unsent encodes fits clean =
      ap (λ x. finish deps app req x.0 x.1) failed
      ∙ rw (after, unsent, write_frame-ok deps.msgpack _ _ reply r.ctx.stream encodes fits clean)

  -- An error value from a wrapped handler that has used up its reply is only logged.
  pub handle_request-failure_sent :
      (r : Run H) (e : GoError)
      → app.after_middleware ≡ []
      → served ≡ (r, returned (err e))
      → r.ctx.sent ≡ true
      → handle_request deps app req peer s host
        ≡ done r.ctx.stream r.host (handler_failed req.method req.path e ∷ [])
  unfolding handle_request
  handle_request-failure_sent r e after failed sent =
      ap (λ x. finish deps app req x.0 x.1) failed ∙ rw (after, sent)

  -- A request whose path no pattern matches is answered by one error frame with code 404, the
  -- request's id and a text that names method and path; the application's state is left alone and
  -- nothing is logged. The app has no middleware and its own handler for 404; the
  -- frame encodes, fits and is written.
  pub handle_request-not_found :
      (reply : Bytes)
      → app.middleware ≡ []
      → app.after_middleware ≡ []
      → app.router.not_found ≡ perform (no_route deps.msgpack)
      → All (Misses deps.unicode req.method (request_url deps app req).path) app.router.routes
      → deps.msgpack.marshal (
          error (record {
            id = req.id;
            code = 404;
            message = codes "no route for " ++ (req.method ++ (codes " " ++ req.path));
            payload = [];
          }))
        ≡ ok reply
      → Fits reply
      → s.faults ≡ []
      → handle_request deps app req peer s host
        ≡ done (record s { output = s.output ++ frame frame_type_error reply }) host []
  unfolding handle_request routed request_run no_route new_context set_params set_query_params
  handle_request-not_found reply plain no_after default absent encodes fits clean =
      let run = request_run deps app req peer s host in
      let handler : (routed deps app req).0 ≡ perform (no_route deps.msgpack) =
        ap (λ x. x.0) (match-absent deps.unicode req.method _ app.router absent) ∙ default in
      let answer =
        error-ok deps.msgpack run.ctx refl 404
          (codes "no route for " ++ (req.method ++ (codes " " ++ req.path))) reply encodes fits
          clean in
      let result : served ≡ (
        record {
          ctx = record run.ctx {
            sent = true;
            stream = appended run.ctx (frame frame_type_error reply);
          };
          host = host;
        },
        returned (ok tt),
      ) =
        ap₂ (λ h m. apply_middleware h m run) handler plain
        ∙ ap (λ h. h run) (apply_middleware-nil (perform (no_route deps.msgpack)))
        ∙ ap (λ x. (record { ctx = x.0; host = host }, returned x.1)) answer in
      ap (λ x. finish deps app req x.0 x.1) result ∙ rw no_after

  -- Without after-middleware, a handler that returns does not crash the goroutine.
  pub handle_request-crash :
      (r : Run H) (e : Result (Unit {0}))
      → app.after_middleware ≡ []
      → served ≡ (r, returned e)
      → (handle_request deps app req peer s host).crash ≡ none
  unfolding handle_request
  handle_request-crash r (ok u) after h = ap (λ x. (finish deps app req x.0 x.1).crash) h ∙ rw after
  handle_request-crash r (err e) after h =
      ap (λ x. (finish deps app req x.0 x.1).crash) h ∙ rw after

  pub handle_request-returned :
      (r : Run H)
      → app.after_middleware ≡ []
      → served ≡ (r, returned (ok tt))
      → handle_request deps app req peer s host ≡ done r.ctx.stream r.host []
  unfolding handle_request
  handle_request-returned r after h = ap (λ x. finish deps app req x.0 x.1) h ∙ rw after
