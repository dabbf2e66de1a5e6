-- ===== src/Examples/ChatHub/Reader/Output.antt =====
-- What a reader's client receives.
use quicframe.Prelude.{
  suc, true, false, ℕ, ◌<◌, ◌^◌, ◌≡◌, List, [], ◌∷◌, ◌++◌, map, ok, All, length,
}
use quicframe.Prelude.Text.{Text, Bytes, codes}
use quicframe.Protocol.Types.{Value, StreamChunk, response, frame_type_response}
use quicframe.Protocol.Stream.{Stream}
use quicframe.Protocol.Codec.{Msgpack}
use quicframe.Protocol.Codec.Frames.{frame, Fits}
use quicframe.Framework.Context.{Context}
use quicframe.Framework.Context.Opening.{begun, first_writer}
use quicframe.Framework.Context.Writer.{StreamWriter}
use quicframe.Framework.Context.Streaming
use quicframe.Framework.Context.Streaming.{Call, calls, chunks, Encodes, image}
use quicframe.Examples.PushStreams.Output.{value_calls, Marshals}
use quicframe.Examples.ChatHub.{ChatEvent}
use quicframe.Examples.ChatHub.Runs.{Step, receiving}
use quicframe.Examples.ChatHub.Reader.{Subscription, event_value}

-- The step in which an event is taken, for each event.
abbrev pub takes : ℕ → List ChatEvent → List Step
takes ch [] = []
takes ch (e ∷ es) = receiving ch ∷ takes ch es

module _ (mp : Msgpack) (enc : StreamChunk → Bytes) (item : Value → Bytes) (sub : Subscription)
    (joined left : ChatEvent) where
  -- The history, then the events received.
  abbrev pub shown : List ChatEvent → List Value
  shown received = map event_value sub.history ++ map event_value received

  -- The context when these calls' chunks are on the wire behind the response's header.
  abbrev pub showing : Bytes → List Call → Context → Context
  showing payload ks c = record c {
    sent = true;
    stream = record c.stream {
      output =
          c.stream.output
          ++ (frame frame_type_response payload ++ image mp enc (chunks c.request.id 0 ks));
    };
  }

  module _ (received : List ChatEvent) (payload : Bytes) (c : Context) (unsent : c.sent ≡ false)
      (clean : c.stream.faults ≡ [])
      (encoded : mp.marshal (
          response (record {
            id = c.request.id;
            status = 200;
            headers = (codes "x-stream", codes "chat-room") ∷ [];
            body = [];
            stream = true;
          }))
        ≡ ok payload)
      (fits : Fits payload) (few : suc (length (shown received)) < 2 ^ 64)
      (marshals : All (Marshals mp enc item) (shown received))
      (items : All
        (Encodes mp enc)
        (chunks c.request.id 0 (value_calls item (shown received) ++ Streaming.close ∷ []))) where
    abbrev start : StreamWriter × Stream
    start = (first_writer c, (begun payload c).stream)

    abbrev written : StreamWriter × Stream
    written = calls mp (value_calls item (shown received)) start
