-- ===== src/Framework/App/Replies.antt =====
-- What the dispatcher writes on each of its paths.
use quicframe.Prelude.{◌≡◌, ◌≢◌, false, [], ◌∷◌, ◌++◌, ok, err, GoError, wrap, ap, ◌∙◌, ◌==◌, arith}
use quicframe.Prelude.Text.{Bytes, codes}
use quicframe.Protocol.Types.{
  FrameType, Request, error, ping, frame_type_ping, frame_type_pong, frame_type_request,
  frame_type_error, status_bad_request,
}
use quicframe.Protocol.Stream.{Stream}
use quicframe.Protocol.Codec.{write_error, decode_request}
use quicframe.Protocol.Codec.Frames.{frame, Fits, write_frame-ok, read_frame-frame}
use quicframe.Framework.Context.{Peer}
use quicframe.Framework.App.{
  App, Deps, decode_failed, unexpected_type, done, after_read, after_decode, handle_request,
  dispatch_stream,
}

module _ {H : Type 0} (deps : Deps) (app : App H) (peer : Peer) (s : Stream) (host : H) where
  -- The stream after one frame was read from the front of its input.
  dispatch-frame :
      (ft : FrameType) (payload rest : Bytes)
      → Fits payload
      → s.input ≡ frame ft payload ++ rest
      → dispatch_stream deps app peer s host
        ≡ after_read deps app (ok (ft, payload)) peer (record s { input = rest }) host
  unfolding dispatch_stream
  dispatch-frame ft payload rest fits e =
      ap (λ x. after_read deps app x.1 peer x.0 host) (read_frame-frame ft payload rest s fits e)

  -- A request frame whose payload decodes is handled as that request.
  pub dispatch-request :
      (payload rest : Bytes) (req : Request)
      → Fits payload
      → s.input ≡ frame frame_type_request payload ++ rest
      → deps.msgpack.unmarshal_request payload ≡ ok req
      → dispatch_stream deps app peer s host
        ≡ handle_request deps app req peer (record s { input = rest }) host
  unfolding after_read after_decode decode_request
  dispatch-request payload rest req fits e decodes =
      dispatch-frame frame_type_request payload rest fits e ∙ rw decodes

  -- A ping is answered by one pong frame whose timestamp is 0, whatever the ping carried; the
  -- application's state is left alone and nothing is logged. The ping's frame is at the front of
  -- the input, and the pong encodes, fits and is written.
  pub dispatch-ping :
      (payload rest pong : Bytes)
      → Fits payload
      → s.input ≡ frame frame_type_ping payload ++ rest
      → deps.msgpack.marshal (ping (record { timestamp = 0 })) ≡ ok pong
      → Fits pong
      → s.faults ≡ []
      → dispatch_stream deps app peer s host
        ≡ done (record s { input = rest; output = s.output ++ frame frame_type_pong pong }) host []
  unfolding after_read
  dispatch-ping payload rest pong fits e encodes small clean =
      dispatch-frame frame_type_ping payload rest fits e
      ∙ ap (λ x. done x.0 host [])
          (write_frame-ok deps.msgpack frame_type_pong _ pong (record s { input = rest }) encodes
            small clean)

  -- A frame of any other type than ping and request is dropped without an answer.
  pub dispatch-unexpected :
      (ft : FrameType) (payload rest : Bytes)
      → Fits payload
      → s.input ≡ frame ft payload ++ rest
      → ft ≢ frame_type_ping
      → ft ≢ frame_type_request
      → dispatch_stream deps app peer s host
        ≡ done (record s { input = rest }) host (unexpected_type ft ∷ [])
  unfolding after_read
  dispatch-unexpected ft payload rest fits e not_ping not_request =
      let a : (ft == frame_type_ping) ≡ false = ground arith in
      let b : (ft == frame_type_request) ≡ false = ground arith in
      dispatch-frame ft payload rest fits e ∙ rw (a, b)

  -- A request that does not decode is answered by one error frame with code 400 and an empty id,
  -- and is logged; the application's state is left alone. The request's frame is at the front of
  -- the input, and the reply encodes, fits and is written.
  pub dispatch-malformed :
      (payload rest reply : Bytes) (why : GoError)
      → Fits payload
      → s.input ≡ frame frame_type_request payload ++ rest
      → deps.msgpack.unmarshal_request payload ≡ err why
      → deps.msgpack.marshal (
          error (record {
            id = [];
            code = status_bad_request;
            message = codes "malformed request frame";
            payload = [];
          }))
        ≡ ok reply
      → Fits reply
      → s.faults ≡ []
      → dispatch_stream deps app peer s host
        ≡ done
            (record s { input = rest; output = s.output ++ frame frame_type_error reply })
            host
            (decode_failed (wrap (codes "quicframe/protocol: decode request: ") why) ∷ [])
  unfolding after_read after_decode decode_request write_error
  dispatch-malformed payload rest reply why fits e bad encodes small clean =
      dispatch-frame frame_type_request payload rest fits e
      ∙ rw bad (
          ap
            (λ x.
              done x.0 host
                (decode_failed (wrap (codes "quicframe/protocol: decode request: ") why) ∷ []))
            (write_frame-ok deps.msgpack frame_type_error _ reply (record s { input = rest })
              encodes small clean))
