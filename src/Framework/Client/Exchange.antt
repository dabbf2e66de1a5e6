-- ===== src/Framework/Client/Exchange.antt =====
-- A whole exchange: the client's request through the dispatcher and back.
use quicframe.Prelude.{ℕ, ◌≡◌, List, [], ◌++◌, ok, ap, sym, ◌∙◌, append-nil}
use mathlib.Core.List.{append_cancel_left}
use quicframe.Prelude.Text.{Text, Bytes}
use quicframe.Protocol.Types.{Value, request, response, frame_type_request, frame_type_response}
use quicframe.Protocol.Stream.{Stream}
use quicframe.Protocol.Codec.Frames.{frame, Fits}
use quicframe.Protocol.Codec.Reading.{read_frame-output}
use quicframe.Framework.Context
use quicframe.Framework.Context.{Peer}
use quicframe.Framework.Handler.{perform}
use quicframe.Framework.App.{App, Deps, dispatch_stream, routed}
use quicframe.Framework.App.Replies.{dispatch-request}
use quicframe.Framework.App.Sending.{sent_response, handle_request-send}
use quicframe.Framework.Client
use quicframe.Framework.Client.{request_body, new_request, request_with_headers}
use quicframe.Framework.Client.Faults.{written, call-written, call-response}

-- A client's request reaches the handler of its route and the handler's reply reaches the client:
-- when the client's output is the server's input and the server's output is the client's input,
-- the call returns the response with the request's id, the status and the body that the handler
-- sent. The request and the response encode, decode to themselves and fit, writes succeed, and the
-- request is routed to `return c.Send(status, body)` in an app with no middleware and no
-- after-middleware.
pub request_with_headers-dispatch_stream :
    {H : Type 0} (deps : Deps) (app : App H) (peer : Peer) (host : H) (now : ℕ) (method path : Text)
    (headers : List (Text × Text)) (v : Value) (body payload answer reply : Bytes) (status : ℕ)
    (c s : Stream)
    → request_body deps.msgpack v ≡ ok body
    → deps.msgpack.marshal (request (new_request now method path headers body)) ≡ ok payload
    → deps.msgpack.unmarshal_request payload ≡ ok (new_request now method path headers body)
    → Fits payload
    → deps.msgpack.marshal
        (response (sent_response (new_request now method path headers body).id status answer))
      ≡ ok reply
    → deps.msgpack.unmarshal_response reply
      ≡ ok (sent_response (new_request now method path headers body).id status answer)
    → Fits reply
    → c.faults ≡ []
    → s.faults ≡ []
    → app.middleware ≡ []
    → app.after_middleware ≡ []
    → (routed deps app (new_request now method path headers body)).0
      ≡ perform (Context.send deps.msgpack status answer)
    → c.output ++ s.input ≡ (request_with_headers deps.msgpack now method path headers v c).0.output
    → s.output ++ c.input ≡ (dispatch_stream deps app peer s host).stream.output
    → (request_with_headers deps.msgpack now method path headers v c).1
      ≡ Client.response (sent_response (new_request now method path headers body).id status answer)
request_with_headers-dispatch_stream deps app peer host now method path headers v body payload
      answer reply status c s body_encodes encodes decodes fits reply_encodes reply_decodes
      reply_fits clean s_clean plain no_after handler to_server to_client =
    let q = new_request now method path headers body in
    let mp = deps.msgpack in
    let out =
      ap (λ x. x.0.output)
        (call-written mp now method path headers v c body payload body_encodes encodes fits clean)
      ∙ read_frame-output
          (written mp now method path headers v c body payload body_encodes encodes fits clean) in
    let arrived : s.input ≡ frame frame_type_request payload ++ [] =
      append_cancel_left c.output _ _ (to_server ∙ out) ∙ sym (append-nil _) in
    let handled =
      dispatch-request deps app peer s host payload [] q fits arrived decodes
      ∙ handle_request-send deps app peer host q (record s { input = [] }) status answer reply plain
          no_after handler reply_encodes reply_fits s_clean in
    let back : c.input ≡ frame frame_type_response reply ++ [] =
      append_cancel_left s.output _ _ (to_client ∙ ap (λ x. x.stream.output) handled)
      ∙ sym (append-nil _) in
    ap (λ x. x.1)
      (call-response mp now method path headers v c body payload body_encodes encodes fits clean
        reply [] _ reply_fits back reply_decodes)
