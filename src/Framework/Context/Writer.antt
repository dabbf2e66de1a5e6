-- ===== src/Framework/Context/Writer.antt =====
-- framework/context.go: NewStream and StreamWriter. A writer shares the stream of its context, so
-- its methods take the stream and return it.
use quicframe.Prelude.{
  ℕ, ◌+◌, ◌%◌, ◌^◌, Bool, true, false, List, [], Result, ok, err, new, if◌then◌else◌, length,
}
use quicframe.Prelude.Text.{Text, Bytes, codes}
use quicframe.Protocol.Types.{
  response, chunk, frame_type_response, frame_type_stream_data, frame_type_stream_end,
}
use quicframe.Protocol.Stream.{Stream}
use quicframe.Protocol.Codec.{Msgpack, write_frame}
use quicframe.Framework.Context.{Act, on_stream, already_sent}

pub record StreamWriter : Type 0 where
  pub request_id : Text
  pub seq : ℕ
  pub closed : Bool

abbrev opened : Text → Result (Unit {0}) → Result StreamWriter
opened id (ok _) = ok (record { request_id = id; seq = 0; closed = false })
opened id (err e) = err e

-- The writer, the shared stream, and what the method returns.
abbrev pub Writing : Type 0 → Type 0
Writing A = StreamWriter → Stream → StreamWriter × Stream × Result A

abbrev count_written : Bytes → Result (Unit {0}) → Result ℕ
count_written bs (ok _) = ok (length bs)
count_written bs (err e) = err e

module _ (mp : Msgpack) where
  unfoldable pub new_stream : ℕ → List (Text × Text) → Act StreamWriter
  new_stream status headers c =
      if c.sent
      then (c, err already_sent)
      else let written =
          on_stream
            (write_frame mp frame_type_response (
              response (record {
                id = c.request.id;
                status = status;
                headers = headers;
                body = [];
                stream = true;
              })))
            (record c { sent = true }) in
        (written.0, opened c.request.id written.1)

  -- `sw.Write(data)`; `seq` is a uint64.
  unfoldable pub write : Bytes → Writing ℕ
  write bs sw s =
      if sw.closed
      then (sw, s, err (new (codes "quicframe: StreamWriter already closed")))
      else let written =
          write_frame mp frame_type_stream_data
            (chunk (record { id = sw.request_id; seq = sw.seq; chunk = bs; final = false })) s in
        (record sw { seq = (sw.seq + 1) % 2 ^ 64 }, written.0, count_written bs written.1)

  -- `sw.Close()`
  unfoldable pub close : Writing (Unit {0})
  close sw s =
      if sw.closed
      then (sw, s, ok tt)
      else let written =
          write_frame mp frame_type_stream_end
            (chunk (record { id = sw.request_id; seq = sw.seq; chunk = []; final = true })) s in
        (record sw { closed = true }, written.0, written.1)
