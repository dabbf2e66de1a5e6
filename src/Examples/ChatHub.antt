-- ===== src/Examples/ChatHub.antt =====
-- examples/streaming-demo/main.go: the hub of the chat. A channel is an entry of a table, by its
-- number, so that those who hold it share it; a room is found by its name, since no room is ever
-- removed. A map is visited in the order of its list. strings.ToLower and strings.TrimSpace are
-- parameters.
pub mod Runs
pub mod Rooms
pub mod History
pub mod Races
pub mod Channels
pub mod Subscribers
pub mod Counting
pub mod Safety
pub mod Messages
pub mod Reader
mod Tests
use quicframe.Prelude.{
  ℕ, zero, suc, ◌+◌, ◌-◌, Bool, true, false, List, [], ◌∷◌, ◌++◌, map, Option, none, some, length,
  drop, ltb, if◌then◌else◌,
}
use quicframe.Prelude.Text.{Text, codes, decimal, is_empty, text_eq}
use quicframe.Prelude.Dict
use quicframe.Framework.App.Serving.{take_at}

abbrev pub chat_history_limit : ℕ
chat_history_limit = 120

pub record ChatEvent : Type 0 where
  pub id : Text
  pub kind : Text
  pub room : Text
  pub sender : Text
  pub client_id : Text
  pub text : Text
  pub sent_at : ℕ

-- A `chan chatEvent` of capacity 32.
pub record Channel : Type 0 where
  pub buffer : List ChatEvent
  pub closed : Bool

pub record ChatRoom : Type 0 where
  pub history : List ChatEvent
  pub subscribers : List (Text × ℕ)

pub record ChatHub : Type 0 where
  pub rooms : List (Text × ChatRoom)
  pub channels : List Channel

abbrev pub new_chat_hub : ChatHub
new_chat_hub = record { rooms = []; channels = [] }

abbrev pub empty_room : ChatRoom
empty_room = record { history = []; subscribers = [] }

abbrev pub put_room : Text → ChatRoom → ChatHub → ChatHub
put_room name room hub = record hub { rooms = Dict.insert name room hub.rooms }

-- `ensureRoomLocked`
abbrev pub room_or_new : Text → Option ChatRoom → ChatHub → ChatRoom × ChatHub
room_or_new name (some room) hub = (room, hub)
room_or_new name none hub = (empty_room, put_room name empty_room hub)

unfoldable pub ensure_room : Text → ChatHub → ChatRoom × ChatHub
ensure_room name hub = room_or_new name (Dict.lookup name hub.rooms) hub

abbrev pub subscriber_id : ℕ → Text
subscriber_id now = codes "sub-" ++ decimal now

-- `close(existing)`; `none` is a panic: the channel was closed before.
abbrev pub close_unless : Bool → Channel → List Channel → Option (List Channel)
close_unless true c cs = none
close_unless false c cs = some (record c { closed = true } ∷ cs)

abbrev pub and_front : {A : Type 0} → A → Option (List A) → Option (List A)
and_front x none = none
and_front x (some xs) = some (x ∷ xs)

unfoldable pub close_channel : ℕ → List Channel → Option (List Channel)
close_channel n [] = some []
close_channel zero (c ∷ cs) = close_unless c.closed c cs
close_channel (suc n) (c ∷ cs) = and_front c (close_channel n cs)

-- `select { case subscriber <- event: default: }`; `none` is a panic: the channel is closed.
abbrev pub put_event : ChatEvent → Channel → List Channel → Option (List Channel)
put_event event c cs =
    if c.closed
    then none
    else if ltb (length c.buffer) 32
    then some (record c { buffer = c.buffer ++ event ∷ [] } ∷ cs)
    else some (c ∷ cs)

unfoldable pub send : ChatEvent → ℕ → List Channel → Option (List Channel)
send event n [] = some []
send event zero (c ∷ cs) = put_event event c cs
send event (suc n) (c ∷ cs) = and_front c (send event n cs)

-- The sends of `publish`, with no step of another in between.
abbrev and_send :
    Option (List Channel) → (List Channel → Option (List Channel)) → Option (List Channel)
and_send none f = none
and_send (some cs) f = f cs

pub deliver : ChatEvent → List ℕ → List Channel → Option (List Channel)
deliver event [] cs = some cs
deliver event (ch ∷ chs) cs = and_send (send event ch cs) (deliver event chs)

-- A receive from a channel; nothing happens while it is empty.
unfoldable pub receive : ℕ → List Channel → List Channel
receive n [] = []
receive zero (c ∷ cs) = record c { buffer = drop 1 c.buffer } ∷ cs
receive (suc n) (c ∷ cs) = c ∷ receive n cs

-- The history after an append.
abbrev pub keep_last : List ChatEvent → List ChatEvent
keep_last history =
    if ltb chat_history_limit (length history)
    then drop (length history - chat_history_limit) history
    else history

abbrev and_channels : Option (List Channel) → ChatHub → Option ChatHub
and_channels none hub = none
and_channels (some cs) hub = some (record hub { channels = cs })

abbrev drop_subscriber : Text → Text → ChatRoom → Option ℕ → ChatHub → Option ChatHub
drop_subscriber name id room none hub = some hub
drop_subscriber name id room (some ch) hub =
    and_channels (close_channel ch hub.channels)
      (put_room name (record room { subscribers = Dict.delete id room.subscribers }) hub)

abbrev unsubscribe_in : Text → Text → Option ChatRoom → ChatHub → Option ChatHub
unsubscribe_in name id none hub = some hub
unsubscribe_in name id (some room) hub =
    drop_subscriber name id room (Dict.lookup id room.subscribers) hub

-- What `subscribe` returns calls this for the room's normalized name.
unfoldable pub unsubscribe : Text → Text → ChatHub → Option ChatHub
unsubscribe name id hub = unsubscribe_in name id (Dict.lookup name hub.rooms) hub

module _ (to_lower trim_space : Text → Text) where
  unfoldable pub normalize_room_name : Text → Text
  normalize_room_name room =
      if is_empty (trim_space (to_lower room)) then codes "lounge" else trim_space (to_lower room)

  -- `subscribe`: the hub after it. The history that it returns is the room's, the channel the last.
  unfoldable pub subscribe : ℕ → Text → ChatHub → ChatHub
  subscribe now room_name hub =
      let name = normalize_room_name room_name in
      let ensured = ensure_room name hub in
      record (put_room name
        (record ensured.0 {
          subscribers = Dict.insert (subscriber_id now) (length hub.channels) ensured.0.subscribers;
        })
        ensured.1) { channels = hub.channels ++ record { buffer = []; closed = false } ∷ [] }

  -- `publish` up to the unlock: the channels to send to, and the hub.
  unfoldable pub publish_locked : Text → ChatEvent → ChatHub → List ℕ × ChatHub
  publish_locked room_name event hub =
      let name = normalize_room_name room_name in
      let ensured = ensure_room name hub in
      (
        map (λ entry. entry.1) ensured.0.subscribers,
        put_room name
            (record ensured.0 {
              history = keep_last (ensured.0.history ++ record event { room = name } ∷ []);
            })
            ensured.1,
      )

  abbrev pub room_event : Text → ChatEvent → ChatEvent
  room_event room_name event = record event { room = normalize_room_name room_name }

  unfoldable pub publish : Text → ChatEvent → ChatHub → Option ChatHub
  unfolding deliver
  publish room_name event hub =
      let published = publish_locked room_name event hub in
      and_channels (deliver (room_event room_name event) published.0 published.1.channels)
        published.1
