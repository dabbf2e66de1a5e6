-- ===== src/Examples/ChatHub/Runs.antt =====
-- Runs of the hub: a publisher sends without the lock, one channel after the other, so that the
-- others' steps can come in between.
use quicframe.Prelude.{ℕ, List, [], ◌∷◌, ◌++◌, Option, none, some}
use quicframe.Prelude.Text.{Text}
use quicframe.Framework.App.Serving.{take_at}
use quicframe.Examples.ChatHub.{
  ChatEvent, Channel, ChatHub, new_chat_hub, subscribe, unsubscribe, publish_locked, room_event,
  send, receive,
}

-- A publisher has its event and the channels it has not sent to yet.
pub record System : Type 0 where
  pub hub : ChatHub
  pub publishers : List (ChatEvent × List ℕ)

pub data Step : Type 0 where
  -- `subscribe` at a time.
  subscribing : ℕ → Text → Step
  -- The closure that `subscribe` returned, for its room's normalized name and its id.
  unsubscribing : Text → Text → Step
  -- `publish` up to the unlock, and one send of a publisher.
  publishing : Text → ChatEvent → Step
  sending : ℕ → Step
  -- The reader of a channel takes an event.
  receiving : ℕ → Step

abbrev pub at_rest : System
at_rest = record { hub = new_chat_hub; publishers = [] }

-- `none` is a panic.
abbrev pub with_hub : System → Option ChatHub → Option System
with_hub s none = none
with_hub s (some hub) = some (record s { hub = hub })

abbrev pub with_channels : System → Option (List Channel) → Option System
with_channels s none = none
with_channels s (some cs) = some (record s { hub = record s.hub { channels = cs } })

abbrev pub send_next :
    Option ((ChatEvent × List ℕ) × List (ChatEvent × List ℕ)) → System → Option System
send_next none s = some s
send_next (some ((event, []), others)) s = some (record s { publishers = others })
send_next (some ((event, ch ∷ chs), others)) s =
    with_channels (record s { publishers = (event, chs) ∷ others }) (send event ch s.hub.channels)

abbrev pub and_steps : Option System → (System → Option System) → Option System
and_steps none f = none
and_steps (some s) f = f s

module _ (to_lower trim_space : Text → Text) where
  abbrev pub step : Step → System → Option System
  step (subscribing now room) s =
      some (record s { hub = subscribe to_lower trim_space now room s.hub })
  step (unsubscribing room id) s = with_hub s (unsubscribe room id s.hub)
  step (publishing room event) s =
      let published = publish_locked to_lower trim_space room event s.hub in
      some (record {
        hub = published.1;
        publishers = s.publishers ++ (room_event to_lower trim_space room event, published.0) ∷ [];
      })
  step (sending n) s = send_next (take_at n s.publishers) s
  step (receiving ch) s =
      some (record s { hub = record s.hub { channels = receive ch s.hub.channels } })

  unfoldable pub run : List Step → System → Option System
  run [] s = some s
  run (e ∷ es) s = and_steps (step e s) (run es)
