-- ===== src/Examples/ChatHub/Reader/Tests.antt =====
-- A reader of a room with one event in its history, which receives another.
use quicframe.Prelude.{List, true, ℕ, ◌≡◌, [], ◌∷◌, Result, ok}
use quicframe.Prelude.Text.{Bytes, codes}
use quicframe.Protocol.Types.{Value, entry, text}
use quicframe.Protocol.Codec.{Msgpack}
use quicframe.Framework.Context.Streaming
use quicframe.Framework.Context.Streaming.{Call}
use quicframe.Examples.PushStreams.Output.{value_calls}
use quicframe.Examples.ChatHub.{ChatEvent}
use quicframe.Examples.ChatHub.Messages.{new_system_event}
use quicframe.Examples.ChatHub.Reader.{Subscription, room_stream}
use quicframe.Examples.ChatHub.Reader.Leaving.{unsubscriptions, returns, room_stream-returns}
use quicframe.Examples.ChatHub.Reader.Output.{shown}
use quicframe.Samples.{toy, chunk_bytes}
use quicframe.Samples.Apps.{context}

-- An event encodes as its id.
abbrev item : Value → Bytes
item (entry k (text t) rest) = t
item v = []

abbrev encode : Value → Result Bytes
encode (entry k (text t) rest) = ok t
encode v = toy.marshal v

abbrev mp : Msgpack
mp = record toy { marshal = encode }

abbrev event : ℕ → ChatEvent
event n = record {
  id = n ∷ [];
  kind = codes "message";
  room = codes "den";
  sender = codes "Eve";
  client_id = codes "c";
  text = codes "hello";
  sent_at = n;
}

abbrev den : Subscription
den = record {
  room_name = codes "den";
  name = codes "den";
  id = codes "sub-7";
  channel = 0;
  history = event 1 ∷ [];
}

abbrev joined : ChatEvent
joined = new_system_event 8 8 (codes "den") (codes "A participant joined the room.")

abbrev left : ChatEvent
left = new_system_event 9 9 (codes "den") (codes "A participant left the room.")

room_stream-returns_example :
    unsubscriptions (room_stream mp den joined left (event 2 ∷ []) true context).0
    ≡ returns (room_stream mp den joined left (event 2 ∷ []) true context).1
room_stream-returns_example = room_stream-returns mp den joined left (event 2 ∷ []) true context

-- The writes of the two events.
abbrev both : List Call
both = value_calls item (shown mp chunk_bytes item den joined left (event 2 ∷ []))
