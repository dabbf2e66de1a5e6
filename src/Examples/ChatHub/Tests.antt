-- ===== src/Examples/ChatHub/Tests.antt =====
-- Small runs of the hub.
use quicframe.Prelude.{◌≡◌, refl, Option, none, some, List, [], ◌∷◌, false}
use quicframe.Prelude.Text.{Text, codes, decimal, text_eq}
use quicframe.Prelude.Dict
use quicframe.Framework.App.Serving.{take_at}
use quicframe.Examples.ChatHub.{
  ChatEvent, subscriber_id, normalize_room_name, ensure_room, subscribe, publish_locked,
  unsubscribe, close_channel, send, receive,
}
use quicframe.Examples.ChatHub.Runs.{
  System, Step, subscribing, unsubscribing, publishing, sending, receiving, at_rest, step, run,
}
use quicframe.Examples.ChatHub.Rooms.{IsEnd, history_of}
use quicframe.Examples.ChatHub.History.{published_to, run-history}
use quicframe.Examples.ChatHub.Races.{run-panics}
use quicframe.Examples.ChatHub.Safety.{IsSafe, IsCalm, IsCalm-cons, run-IsSafe}

abbrev same : Text → Text
same t = t

abbrev hello : ChatEvent
hello = record {
  id = codes "msg-1";
  kind = codes "message";
  room = [];
  sender = codes "Eve";
  client_id = codes "c";
  text = codes "hello";
  sent_at = 4;
}

abbrev bye : ChatEvent
bye = record hello { text = codes "bye" }

-- Two messages to the lounge and one to another room, with a reader in the lounge.
abbrev steps : List Step
steps =
    subscribing 7 []
    ∷ publishing [] hello
    ∷ publishing (codes "den") hello
    ∷ sending 0
    ∷ publishing (codes "lounge") bye
    ∷ receiving 0
    ∷ []

abbrev lounge : Text
lounge = codes "lounge"

abbrev den : Text
den = codes "den"

abbrev final : System
final = record {
  hub = record {
    rooms =
        (
          lounge,
          record {
            history = record hello { room = lounge } ∷ record bye { room = lounge } ∷ [];
            subscribers = (codes "sub-7", 0) ∷ [];
          },
        )
        ∷ (den, record { history = record hello { room = den } ∷ []; subscribers = [] })
        ∷ [];
    channels = record { buffer = []; closed = false } ∷ [];
  };
  publishers =
      (record hello { room = lounge }, [])
      ∷ (record hello { room = den }, [])
      ∷ (record bye { room = lounge }, 0 ∷ [])
      ∷ [];
}

run-history_example : IsEnd (published_to same same lounge steps) (history_of lounge final.hub)
unfolding codes decimal run take_at send receive subscribe publish_locked ensure_room
    normalize_room_name Dict.lookup Dict.insert text_eq
run-history_example = run-history same same lounge steps final refl

run-panics_example :
    run same same
      (subscribing 7 []
        ∷ publishing [] hello
        ∷ unsubscribing (normalize_room_name same same []) (subscriber_id 7)
        ∷ sending 0
        ∷ [])
      at_rest
    ≡ none
run-panics_example = run-panics same same 7 [] hello

-- The subscriber leaves when the one send is done.
abbrev last_steps : List Step
last_steps = publishing [] bye ∷ []

abbrev leaving : List Step
leaving = unsubscribing lounge (codes "sub-7") ∷ last_steps

abbrev calm_steps : List Step
calm_steps = subscribing 7 [] ∷ publishing [] hello ∷ sending 0 ∷ leaving

-- The state after a step that does not panic.
abbrev after : Step → System → System
after e s = or_rest (step same same e s)
  where
    or_rest : Option System → System
    or_rest none = at_rest
    or_rest (some t) = t

abbrev joined : System
joined = after (subscribing 7 []) at_rest

abbrev said : System
said = after (publishing [] hello) joined

abbrev delivered : System
delivered = after (sending 0) said

abbrev left : System
left = after (unsubscribing lounge (codes "sub-7")) delivered

calm_steps-IsCalm : IsCalm same same calm_steps at_rest
unfolding codes decimal take_at send subscribe unsubscribe publish_locked ensure_room
    normalize_room_name close_channel Dict.delete Dict.lookup Dict.insert text_eq
calm_steps-IsCalm =
    let calm = IsCalm-cons same same in
    calm (subscribing 7 []) (publishing [] hello ∷ sending 0 ∷ leaving) at_rest joined tt refl (
      calm (publishing [] hello) (sending 0 ∷ leaving) joined said tt refl (
        calm (sending 0) leaving said delivered tt refl (
          calm (unsubscribing lounge (codes "sub-7")) last_steps delivered left (refl, tt) refl
            (calm (publishing [] bye) [] left (after (publishing [] bye) left) tt refl tt))))

run-IsSafe_example : (t : System) × (run same same calm_steps at_rest ≡ some t) × IsSafe t
run-IsSafe_example = run-IsSafe same same calm_steps calm_steps-IsCalm
