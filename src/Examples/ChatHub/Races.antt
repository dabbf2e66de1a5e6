-- ===== src/Examples/ChatHub/Races.antt =====
-- A publisher that is overtaken.
use quicframe.Prelude.{ℕ, ◌≡◌, ap, ◌∙◌, true, false, List, [], ◌∷◌, none, some}
use quicframe.Prelude.Text.{Text, text_eq_self}
use quicframe.Prelude.Dict
use quicframe.Framework.App.Serving.{take_at}
use quicframe.Examples.ChatHub.{
  ChatEvent, ChatHub, new_chat_hub, room_event, subscriber_id, normalize_room_name, ensure_room,
  subscribe, unsubscribe, publish_locked, close_channel, send,
}
use quicframe.Examples.ChatHub.Runs.{
  subscribing, unsubscribing, publishing, sending, at_rest, run, and_steps, with_hub,
}

module _ (to_lower trim_space : Text → Text) where
  -- The hub with one room and its one subscriber, and without the subscriber.
  abbrev joined : Text → List ChatEvent → ℕ → ChatHub
  joined name history now = record {
    rooms = (name, record { history = history; subscribers = (subscriber_id now, 0) ∷ [] }) ∷ [];
    channels = record { buffer = []; closed = false } ∷ [];
  }

  abbrev left : Text → List ChatEvent → ChatHub
  left name history = record {
    rooms = (name, record { history = history; subscribers = [] }) ∷ [];
    channels = record { buffer = []; closed = true } ∷ [];
  }

  subscribe-joined :
      (now : ℕ) (room : Text)
      → subscribe to_lower trim_space now room new_chat_hub
        ≡ joined (normalize_room_name to_lower trim_space room) [] now
  unfolding subscribe ensure_room Dict.lookup Dict.insert
  subscribe-joined now room = rw (text_eq_self (normalize_room_name to_lower trim_space room))

  publish_locked-joined :
      (now : ℕ) (room : Text) (event : ChatEvent)
      → publish_locked to_lower trim_space room event
          (joined (normalize_room_name to_lower trim_space room) [] now)
        ≡ (
          0 ∷ [],
          joined
              (normalize_room_name to_lower trim_space room)
              (room_event to_lower trim_space room event ∷ [])
              now,
        )
  unfolding publish_locked ensure_room Dict.lookup Dict.insert
  publish_locked-joined now room event =
      let same = text_eq_self (normalize_room_name to_lower trim_space room) in rw same (rw same)

  unsubscribe-joined :
      (name : Text) (history : List ChatEvent) (now : ℕ)
      → unsubscribe name (subscriber_id now) (joined name history now) ≡ some (left name history)
  unfolding unsubscribe close_channel Dict.delete Dict.lookup Dict.insert
  unsubscribe-joined name history now = rw (text_eq_self name) (
      rw (text_eq_self (subscriber_id now))
        (rw (text_eq_self name) (rw (text_eq_self (subscriber_id now)))))

  -- A publisher that has collected the channels of a room panics, with a send on a closed channel,
  -- when the subscriber of the room unsubscribes before the send: for every room, time and event.
  pub run-panics :
      (now : ℕ) (room : Text) (event : ChatEvent)
      → run to_lower trim_space
          (subscribing now room
            ∷ publishing room event
            ∷ unsubscribing (normalize_room_name to_lower trim_space room) (subscriber_id now)
            ∷ sending 0
            ∷ [])
          at_rest
        ≡ none
  unfolding run send take_at
  run-panics now room event =
      let name = normalize_room_name to_lower trim_space room in
      let sent = room_event to_lower trim_space room event in
      let leave = unsubscribing name (subscriber_id now) in
      ap
        (λ hub.
          run to_lower trim_space (publishing room event ∷ leave ∷ sending 0 ∷ [])
            (record at_rest { hub = hub }))
        (subscribe-joined now room)
      ∙ (ap
            (λ p.
              run to_lower trim_space (leave ∷ sending 0 ∷ [])
                (record { hub = p.1; publishers = (sent, p.0) ∷ [] }))
            (publish_locked-joined now room event)
          ∙ ap
              (λ o.
                and_steps
                  (with_hub
                    (record { hub = joined name (sent ∷ []) now; publishers = (sent, 0 ∷ []) ∷ [] })
                    o)
                  (run to_lower trim_space (sending 0 ∷ [])))
              (unsubscribe-joined name (sent ∷ []) now))
