-- ===== src/Framework/App/Sending.antt =====
-- A route whose handler replies by Send, seen from the dispatcher.
use quicframe.Prelude.{ℕ, ◌≡◌, refl, true, false, [], ◌++◌, ok, ap, ap₂, ◌∙◌}
use quicframe.Prelude.Text.{Text, Bytes}
use quicframe.Protocol.Types.{Request, Response, response, frame_type_response}
use quicframe.Protocol.Stream.{Stream}
use quicframe.Protocol.Codec.Frames.{frame, Fits}
use quicframe.Framework.Context
use quicframe.Framework.Context.{Peer, new_context, set_params, set_query_params, final_headers}
use quicframe.Framework.Context.Results.{send-ok, appended}
use quicframe.Framework.Handler.{returned, apply_middleware, perform}
use quicframe.Framework.Handler.Order.{apply_middleware-nil}
use quicframe.Framework.App.{App, Deps, done, handle_request, routed, request_run, finish}
use quicframe.Framework.App.NotFound.{served}

-- What `Send` answers to a request with this id.
abbrev pub sent_response : Text → ℕ → Bytes → Response
sent_response id status body = record {
  id = id;
  status = status;
  headers = final_headers [] [];
  body = body;
  stream = false;
}

module _ {H : Type 0} (deps : Deps) (app : App H) (peer : Peer) (host : H) where
  -- A route whose handler is `return c.Send(status, body)`, with no middleware.
  pub handle_request-send :
      (req : Request) (s : Stream) (status : ℕ) (body reply : Bytes)
      → app.middleware ≡ []
      → app.after_middleware ≡ []
      → (routed deps app req).0 ≡ perform (Context.send deps.msgpack status body)
      → deps.msgpack.marshal (response (sent_response req.id status body)) ≡ ok reply
      → Fits reply
      → s.faults ≡ []
      → handle_request deps app req peer s host
        ≡ done (record s { output = s.output ++ frame frame_type_response reply }) host []
  unfolding handle_request request_run new_context set_params set_query_params
  handle_request-send req s status body reply plain no_after handler encodes fits clean =
      let run = request_run deps app req peer s host in
      let answer = send-ok deps.msgpack run.ctx refl status body reply encodes fits clean in
      let result : served deps app req peer s host ≡ (
        record {
          ctx = record run.ctx {
            sent = true;
            stream = appended run.ctx (frame frame_type_response reply);
          };
          host = host;
        },
        returned (ok tt),
      ) =
        ap₂ (λ h m. apply_middleware h m run) handler plain
        ∙ ap (λ h. h run) (apply_middleware-nil (perform (Context.send deps.msgpack status body)))
        ∙ ap (λ x. (record { ctx = x.0; host = host }, returned x.1)) answer in
      ap (λ x. finish deps app req x.0 x.1) result ∙ rw no_after
