-- ===== src/Framework/Context/Results.antt =====
-- What single reply calls do on a context that has not replied.
use quicframe.Prelude.{ℕ, ◌≡◌, true, false, List, [], ◌++◌, ok, err, GoError, new, wrap, ◌<◌, ap}
use quicframe.Prelude.Text.{Text, Bytes, codes, decimal}
use quicframe.Protocol.Types.{
  Value, max_frame_size, error, response, frame_type_error, frame_type_response,
}
use quicframe.Protocol.Stream.{Stream}
use quicframe.Protocol.Codec.{Msgpack, frame_length, write_error}
use quicframe.Protocol.Codec.Frames.{frame, Fits, write_frame-ok}
use quicframe.Protocol.Codec.Emission.{write_frame-oversized}
use quicframe.Framework.Context
use quicframe.Framework.Context.{Context, final_headers, write_response, reply_error, error_payload}

abbrev pub appended : Context → Bytes → Stream
appended c bs = record c.stream { output = c.stream.output ++ bs }

module _ (mp : Msgpack) (c : Context) (unsent : c.sent ≡ false) where
  pub error-ok :
      (code : ℕ) (message : Text) (reply : Bytes)
      → mp.marshal
          (error (record { id = c.request.id; code = code; message = message; payload = [] }))
        ≡ ok reply
      → Fits reply
      → c.stream.faults ≡ []
      → Context.error mp code message [] c
        ≡ (record c { sent = true; stream = appended c (frame frame_type_error reply) }, ok tt)
  unfolding Context.error write_error
  error-ok code message reply encodes fits clean =
      rw (unsent, write_frame-ok mp _ _ reply c.stream encodes fits clean)

  pub send-ok :
      (status : ℕ) (body reply : Bytes)
      → mp.marshal (
          response (record {
            id = c.request.id;
            status = status;
            headers = final_headers c.res_headers [];
            body = body;
            stream = false;
          }))
        ≡ ok reply
      → Fits reply
      → c.stream.faults ≡ []
      → Context.send mp status body c
        ≡ (record c { sent = true; stream = appended c (frame frame_type_response reply) }, ok tt)
  unfolding Context.send
  send-ok status body reply encodes fits clean =
      rw (unsent, write_frame-ok mp _ _ reply c.stream encodes fits clean)

  -- `Error` with extra data that does not encode uses up the reply, writes nothing and returns an
  -- error.
  pub error-unencodable :
      (code : ℕ) (message : Text) (args : List Value) (why : GoError)
      → error_payload mp args ≡ err why
      → Context.error mp code message args c
        ≡ (record c { sent = true }, err (wrap (codes "quicframe: Error: marshal data: ") why))
  unfolding Context.error
  error-unencodable code message args why h =
      rw unsent (ap (λ r. reply_error mp code message r (record c { sent = true })) h)

  -- A response above the frame limit uses up the reply, writes nothing and returns an error.
  pub send-oversized :
      (status : ℕ) (body reply : Bytes)
      → mp.marshal (
          response (record {
            id = c.request.id;
            status = status;
            headers = final_headers c.res_headers [];
            body = body;
            stream = false;
          }))
        ≡ ok reply
      → max_frame_size < frame_length reply
      → Context.send mp status body c ≡ (
        record c { sent = true },
        err (
            new (
              codes "quicframe/protocol: payload too large ("
              ++ decimal (frame_length reply)
              ++ codes " bytes)")),
      )
  unfolding Context.send
  send-oversized status body reply encodes large =
      rw (unsent, write_frame-oversized mp _ _ reply c.stream encodes large)
