-- ===== src/Framework/Client.antt =====
-- framework/client.go: one request on a fresh stream; Connection has the rest. Opening and closing
-- the stream belong to quic-go; `now` is the value of `time.Now().UnixNano()`.
pub mod Exchange
pub mod Faults
pub mod Connection
mod Tests
use quicframe.Prelude.{
  ℕ, Bool, false, List, [], ◌∷◌, ◌++◌, Result, ok, err, GoError, new, wrap, if◌then◌else◌, ◌==◌,
}
use quicframe.Prelude.Text.{Text, Bytes, codes, decimal}
use quicframe.Protocol.Types.{
  FrameType, Request, Response, ErrorFrame, Value, nil, bytes, request, frame_type_request,
  frame_type_response, frame_type_error,
}
use quicframe.Protocol.Stream.{Stream}
use quicframe.Protocol.Codec.{Msgpack, write_frame, read_frame, decode_response, decode_error}

-- How the call ends: with a response, with an error, or by a panic.
pub data Reply : Type 0 where
  response : Response → Reply
  failed : GoError → Reply
  panicked : Text → Reply

-- The body's bytes: raw bytes as they are, no body for nil, and msgpack for anything else.
abbrev encoded : Result Bytes → Result Bytes
encoded (ok b) = ok b
encoded (err e) = err (wrap (codes "quicframe: marshal body: ") e)

unfoldable pub request_body : Msgpack → Value → Result Bytes
request_body mp nil = ok []
request_body mp (bytes b) = ok b
request_body mp v = encoded (mp.marshal v)

unfoldable pub new_request : ℕ → Text → Text → List (Text × Text) → Bytes → Request
new_request now method path headers body = record {
  id = codes "req-" ++ decimal now;
  method = method;
  path = path;
  headers = headers;
  body = body;
  stream = false;
}

-- `errFrame, _ := DecodeError(data)` leaves a nil pointer when the payload does not decode.
server_error : Result ErrorFrame → Reply
server_error (ok e) =
    failed (new (codes "quicframe: server error " ++ (decimal e.code ++ (codes ": " ++ e.message))))
server_error (err e) =
    panicked (codes "runtime error: invalid memory address or nil pointer dereference")

decoded : Result Response → Reply
decoded (ok r) = response r
decoded (err e) = failed e

module _ (mp : Msgpack) where
  pub read_reply : Result (FrameType × Bytes) → Reply
  unfolding server_error decoded
  read_reply (err e) = failed e
  read_reply (ok (ft, payload)) =
      if ft == frame_type_error
      then server_error (decode_error mp payload)
      else if ft == frame_type_response
      then decoded (decode_response mp payload)
      else failed (new (codes "unexpected frame type: " ++ decimal ft))

  after_write : Stream × Result (Unit {0}) → Stream × Reply
  unfolding read_reply
  after_write (s, err e) = (s, failed e)
  after_write (s, ok _) = ((read_frame s).0, read_reply (read_frame s).1)

  send_request : Result Bytes → ℕ → Text → Text → List (Text × Text) → Stream → Stream × Reply
  unfolding after_write
  send_request (err e) now method path headers s = (s, failed e)
  send_request (ok body) now method path headers s =
      after_write
        (write_frame mp frame_type_request (request (new_request now method path headers body)) s)

  -- `RequestWithHeaders` on the opened stream.
  unfoldable pub request_with_headers :
      ℕ → Text → Text → List (Text × Text) → Value → Stream → Stream × Reply
  unfolding send_request
  request_with_headers now method path headers body s =
      send_request (request_body mp body) now method path headers s
