-- ===== src/Examples/ChatHub/Reader.antt =====
-- examples/streaming-demo/main.go: the handler that streams a room's events, after `subscribe`. Its
-- steps on the hub are listed beside what it does on its own stream; the sends of what it publishes
-- are a publisher's steps.
pub mod Leaving
pub mod Output
mod Tests
use quicframe.Prelude.{
  ℕ, List, [], ◌∷◌, ◌++◌, map, Option, none, some, Result, ok, err, GoError, length, Bool, true,
  false,
}
use quicframe.Prelude.Text.{Text, codes}
use quicframe.Protocol.Types.{Value, number, text, table, entry}
use quicframe.Protocol.Stream.{Stream}
use quicframe.Protocol.Codec.{Msgpack}
use quicframe.Framework.Context.{Context, param}
use quicframe.Framework.Context.Writer
use quicframe.Framework.Context.Writer.{StreamWriter, new_stream}
use quicframe.Examples.PushStreams.{Failure, Pushed, write_value, write_values}
use quicframe.Examples.ChatHub.{ChatEvent, ChatHub, normalize_room_name, subscriber_id, ensure_room}
use quicframe.Examples.ChatHub.Runs.{Step, unsubscribing, publishing, receiving}

abbrev pub event_value : ChatEvent → Value
event_value e = entry (codes "id") (text e.id) (
    entry (codes "kind") (text e.kind) (
      entry (codes "room") (text e.room) (
        entry (codes "sender") (text e.sender) (
          entry (codes "clientId") (text e.client_id) (
            entry (codes "text") (text e.text)
              (entry (codes "sentAt") (number e.sent_at) (table [])))))))

-- What the handler has of its subscription: the name that it passes to `publish`, the room's
-- normalized name and the id that unsubscribe removes, the channel, and the history.
pub record Subscription : Type 0 where
  pub room_name : Text
  pub name : Text
  pub id : Text
  pub channel : ℕ
  pub history : List ChatEvent

-- `chat.subscribe(roomName)`, with the hub that it finds.
abbrev pub subscription : (Text → Text) → (Text → Text) → ℕ → Context → ChatHub → Subscription
subscription to_lower trim_space now c hub =
    let room_name = normalize_room_name to_lower trim_space (param (codes "room") c) in
    let name = normalize_room_name to_lower trim_space room_name in
    record {
      room_name = room_name;
      name = name;
      id = subscriber_id now;
      channel = length hub.channels;
      history = (ensure_room name hub).0.history;
    }

-- Where the handler is: it has returned the error of NewStream, it has returned nil, after a failed
-- write or the end of its channel, or it waits for the next event of the channel.
pub data Reading : Type 0 where
  refused : Context → GoError → Reading
  ended : Context → Reading
  waiting : Context → StreamWriter → Reading

-- The loop over the channel, with the steps in which it takes an event.
abbrev pub take_on :
    ℕ → Option Failure → StreamWriter × Stream → List Step × Pushed → List Step × Pushed
take_on ch none here (steps, pushed) = (receiving ch ∷ steps, pushed)
take_on ch (some f) here rest = (receiving ch ∷ [], (here, some f))

module _ (mp : Msgpack) (sub : Subscription) (joined left : ChatEvent) where
  unfoldable pub read_events : List ChatEvent → StreamWriter × Stream → List Step × Pushed
  read_events [] x = ([], (x, none))
  read_events (e ∷ es) x =
      let w = write_value mp (event_value e) x in
      let rest = read_events es w.0 in take_on sub.channel w.1 w.0 rest

  -- The deferred calls on the hub.
  abbrev pub leaving : List Step
  leaving = unsubscribing sub.name sub.id ∷ publishing sub.room_name left ∷ []

  abbrev pub closed_after : Context → StreamWriter × Stream → Reading
  closed_after c (sw, s) = ended (record c { stream = (Writer.close mp sw s).1 })

  -- The end of the loop: a failed write, the channel's end, or neither yet.
  abbrev pub after_reading : Bool → Context → List Step × Pushed → List Step × Reading
  after_reading false c (steps, ((sw, s), none)) =
      (publishing sub.room_name joined ∷ steps, waiting (record c { stream = s }) sw)
  after_reading true c (steps, (x, none)) =
      (publishing sub.room_name joined ∷ (steps ++ leaving), closed_after c x)
  after_reading closed c (steps, (x, some f)) =
      (publishing sub.room_name joined ∷ (steps ++ leaving), closed_after c x)

  abbrev pub after_history : List ChatEvent → Bool → Context → Pushed → List Step × Reading
  after_history received closed c (x, none) = after_reading closed c (read_events received x)
  after_history received closed c (x, some f) = (leaving, closed_after c x)

  abbrev pub after_opening :
      List ChatEvent → Bool → Context × Result StreamWriter → List Step × Reading
  after_opening received closed (c, err e) = (unsubscribing sub.name sub.id ∷ [], refused c e)
  after_opening received closed (c, ok sw) =
      after_history received closed c (write_values mp (map event_value sub.history) (sw, c.stream))

  -- The handler after the events that its channel has given so far, and its end if it is `closed`
  -- behind them.
  unfoldable pub room_stream : List ChatEvent → Bool → Context → List Step × Reading
  room_stream received closed c =
      after_opening received closed
        (new_stream mp 200 ((codes "x-stream", codes "chat-room") ∷ []) c)
