-- ===== src/Framework/App/Silence.antt =====
-- Requests that end with no reply, or with two: how the `sent` flag and the dispatcher disagree.
use quicframe.Prelude.{
  ℕ, ◌≡◌, ◌<◌, refl, true, false, List, [], ◌∷◌, ◌++◌, ok, err, GoError, new, wrap, message, ap,
  ap₂, ◌∙◌,
}
use quicframe.Prelude.Text.{Text, Bytes, codes, decimal}
use quicframe.Protocol.Types.{
  Request, Value, error, response, max_frame_size, frame_type_error, frame_type_response,
  status_internal_server_error,
}
use quicframe.Protocol.Stream.{Stream}
use quicframe.Protocol.Codec.{frame_length, write_error}
use quicframe.Protocol.Codec.Frames.{frame, Fits, write_frame-ok}
use quicframe.Framework.Context
use quicframe.Framework.Context.{
  Peer, error_payload, final_headers, new_context, set_params, set_query_params,
}
use quicframe.Framework.Context.Results.{error-unencodable, send-oversized, send-ok}
use quicframe.Framework.Handler.{Run, returned, HandlerFunc, apply_middleware, perform}
use quicframe.Framework.Handler.Order.{apply_middleware-nil}
use quicframe.Framework.App.{
  App, Deps, handler_failed, done, handle_request, routed, request_run, finish,
}
use quicframe.Framework.App.NotFound.{served, handle_request-failure_sent}
use quicframe.Framework.App.Sending.{sent_response}

module _ {H : Type 0} (deps : Deps) (app : App H) (req : Request) (peer : Peer) (s : Stream)
    (host : H) where
  served-plain :
      (h : HandlerFunc H)
      → app.middleware ≡ []
      → (routed deps app req).0 ≡ h
      → served deps app req peer s host ≡ h (request_run deps app req peer s host)
  served-plain h plain handler =
      let run = request_run deps app req peer s host in
      ap₂ (λ k m. apply_middleware k m run) handler plain ∙ ap (λ k. k run) (apply_middleware-nil h)

  -- A handler that replies by Error with extra data that does not encode leaves the client without
  -- any frame: the reply counts as sent, so the dispatcher's own error frame is withheld too. The
  -- app has no middleware and no after-middleware.
  pub handle_request-unencodable :
      (code : ℕ) (text : Text) (args : List Value) (why : GoError)
      → app.middleware ≡ []
      → app.after_middleware ≡ []
      → (routed deps app req).0 ≡ perform (Context.error deps.msgpack code text args)
      → error_payload deps.msgpack args ≡ err why
      → handle_request deps app req peer s host
        ≡ done s host (
            handler_failed req.method req.path (wrap (codes "quicframe: Error: marshal data: ") why)
            ∷ [])
  unfolding request_run new_context set_params set_query_params
  handle_request-unencodable code text args why plain no_after handler bad =
      let run = request_run deps app req peer s host in
      handle_request-failure_sent deps app req peer s host
        (record { ctx = record run.ctx { sent = true }; host = host })
        (wrap (codes "quicframe: Error: marshal data: ") why) no_after
        (served-plain _ plain handler
          ∙ ap (λ x. (record { ctx = x.0; host = host }, returned x.1))
              (error-unencodable deps.msgpack run.ctx refl code text args why bad))
        refl

  -- A handler that replies by Send with a response above the frame limit leaves the client without
  -- any frame: the reply counts as sent, so the dispatcher's own error frame is withheld too. The
  -- app has no middleware and no after-middleware.
  pub handle_request-oversized :
      (status : ℕ) (body reply : Bytes)
      → app.middleware ≡ []
      → app.after_middleware ≡ []
      → (routed deps app req).0 ≡ perform (Context.send deps.msgpack status body)
      → deps.msgpack.marshal (response (sent_response req.id status body)) ≡ ok reply
      → max_frame_size < frame_length reply
      → handle_request deps app req peer s host
        ≡ done s host (
            handler_failed req.method req.path (
              new (
                codes "quicframe/protocol: payload too large ("
                ++ decimal (frame_length reply)
                ++ codes " bytes)"))
            ∷ [])
  unfolding request_run new_context set_params set_query_params
  handle_request-oversized status body reply plain no_after handler encodes large =
      let run = request_run deps app req peer s host in
      handle_request-failure_sent deps app req peer s host
        (record { ctx = record run.ctx { sent = true }; host = host }) _ no_after
        (served-plain _ plain handler
          ∙ ap (λ x. (record { ctx = x.0; host = host }, returned x.1))
              (send-oversized deps.msgpack run.ctx refl status body reply encodes large))
        refl

  -- When a handler has returned an error and sent nothing, and the one after-middleware replies by
  -- Send, the client gets two frames: the dispatcher's error frame and the response. Both encode,
  -- fit and are written.
  pub handle_request-two_replies :
      (r : Run H) (e : GoError) (status : ℕ) (body failure reply : Bytes)
      → app.after_middleware ≡ perform (Context.send deps.msgpack status body) ∷ []
      → served deps app req peer s host ≡ (r, returned (err e))
      → r.ctx.sent ≡ false
      → deps.msgpack.marshal (
          error (record {
            id = req.id;
            code = status_internal_server_error;
            message = message e;
            payload = [];
          }))
        ≡ ok failure
      → Fits failure
      → deps.msgpack.marshal (
          response (record {
            id = r.ctx.request.id;
            status = status;
            headers = final_headers r.ctx.res_headers [];
            body = body;
            stream = false;
          }))
        ≡ ok reply
      → Fits reply
      → r.ctx.stream.faults ≡ []
      → (handle_request deps app req peer s host).stream.output
        ≡ (r.ctx.stream.output ++ frame frame_type_error failure) ++ frame frame_type_response reply
  unfolding handle_request finish write_error
  handle_request-two_replies r e status body failure reply after failed unsent encodes fits
        reply_encodes reply_fits clean =
      ap (λ x. (finish deps app req x.0 x.1).stream.output) failed
      ∙ rw (
        after,
        unsent,
        write_frame-ok deps.msgpack _ _ failure r.ctx.stream encodes fits clean,
        send-ok deps.msgpack
            (record r.ctx {
              sent = false;
              stream = record r.ctx.stream {
                output = r.ctx.stream.output ++ frame frame_type_error failure;
              };
            })
            refl status body reply reply_encodes reply_fits clean,
      )
