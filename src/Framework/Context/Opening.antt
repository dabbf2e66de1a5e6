-- ===== src/Framework/Context/Opening.antt =====
-- NewStream on a stream on which no write fails.
use quicframe.Prelude.{◌≡◌, true, false, List, [], ◌++◌, ok}
use quicframe.Prelude.Text.{Text, Bytes}
use quicframe.Protocol.Types.{response, frame_type_response}
use quicframe.Protocol.Codec.{Msgpack}
use quicframe.Protocol.Codec.Frames.{frame, Fits, write_frame-ok}
use quicframe.Framework.Context.{Context}
use quicframe.Framework.Context.Writer.{StreamWriter, new_stream}

-- The context with the response's header on the wire, and its writer.
abbrev pub begun : Bytes → Context → Context
begun payload c = record c {
  sent = true;
  stream = record c.stream { output = c.stream.output ++ frame frame_type_response payload };
}

abbrev pub first_writer : Context → StreamWriter
first_writer c = record { request_id = c.request.id; seq = 0; closed = false }

module _ (mp : Msgpack) where
  pub new_stream-clean :
      (headers : List (Text × Text)) (payload : Bytes) (c : Context)
      → c.sent ≡ false
      → c.stream.faults ≡ []
      → mp.marshal (
          response (record {
            id = c.request.id;
            status = 200;
            headers = headers;
            body = [];
            stream = true;
          }))
        ≡ ok payload
      → Fits payload
      → new_stream mp 200 headers c ≡ (begun payload c, ok (first_writer c))
  unfolding new_stream
  new_stream-clean headers payload c unsent clean encoded fits =
      rw (unsent, write_frame-ok mp frame_type_response _ payload c.stream encoded fits clean)
