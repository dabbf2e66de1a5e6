-- ===== src/Framework/App/Crashes.antt =====
-- Where a stream's goroutine can crash: nowhere but in the handling of a request.
use quicframe.Prelude.{◌≡◌, refl, none, Result, ok, err, Bool-cases, inl, inr, ◌==◌}
use quicframe.Prelude.Text.{Bytes}
use quicframe.Protocol.Types.{FrameType, Request, frame_type_ping, frame_type_request}
use quicframe.Protocol.Stream.{Stream}
use quicframe.Protocol.Codec.{read_frame, decode_request}
use quicframe.Framework.Context.{Peer}
use quicframe.Framework.App.{App, Deps, handle_request, after_decode, after_read, dispatch_stream}

module _ {H : Type 0} (deps : Deps) (app : App H)
    (handles : (req : Request) (peer : Peer) (s : Stream) (host : H)
      → (handle_request deps app req peer s host).crash ≡ none) where
  after_decode-crash :
      (r : Result Request) (peer : Peer) (s : Stream) (host : H)
      → (after_decode deps app r peer s host).crash ≡ none
  unfolding after_decode
  after_decode-crash (err e) peer s host = refl
  after_decode-crash (ok req) peer s host = handles req peer s host

  after_read-crash :
      (r : Result (FrameType × Bytes)) (peer : Peer) (s : Stream) (host : H)
      → (after_read deps app r peer s host).crash ≡ none
  unfolding after_read
  after_read-crash (err e) peer s host = refl
  after_read-crash (ok (ft, payload)) peer s host = elim (Bool-cases (ft == frame_type_ping)) [
    | inl is_ping ↦ rw is_ping
    | inr other ↦ elim (Bool-cases (ft == frame_type_request)) [
      | inl is_request ↦
          rw (other, is_request)
            (after_decode-crash (decode_request deps.msgpack payload) peer s host)
      | inr unexpected ↦ rw (other, unexpected)
    ]
  ]

  pub dispatch_stream-crash :
      (peer : Peer) (s : Stream) (host : H) → (dispatch_stream deps app peer s host).crash ≡ none
  unfolding dispatch_stream
  dispatch_stream-crash peer s host = after_read-crash (read_frame s).1 peer (read_frame s).0 host
