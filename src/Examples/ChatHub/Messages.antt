-- ===== src/Examples/ChatHub/Messages.antt =====
-- examples/streaming-demo/main.go: posting a message, and its checks. The hub is the application's
-- state. `now` is the time's text in nanoseconds, `now_ms` the time in milliseconds.
use quicframe.Prelude.{
  ℕ, [], ◌∷◌, ◌++◌, Option, none, some, Result, ok, err, true, length, take, ltb, if◌then◌else◌,
}
use quicframe.Prelude.Text.{Text, codes, decimal, is_empty}
use quicframe.Prelude.Dict
use quicframe.Protocol.Types.{Value, table, boolean, entry}
use quicframe.Protocol.Codec.{Msgpack}
use quicframe.Framework.Context.{Context, bind, param, msgpack, error}
use quicframe.Framework.Handler.{panicked, HandlerFunc, perform}
use quicframe.Framework.Validation.{bound}
use quicframe.Examples.ChatHub.{ChatEvent, ChatHub, normalize_room_name, publish}

pub record ChatPostBody : Type 0 where
  pub sender : Text
  pub client_id : Text
  pub text : Text

abbrev pub sanitize_chat_name : (Text → Text) → Text → Text
sanitize_chat_name trim_space name =
    if is_empty (trim_space name)
    then []
    else if ltb 32 (length (trim_space name))
    then take 32 (trim_space name)
    else trim_space name

abbrev pub new_system_event : ℕ → ℕ → Text → Text → ChatEvent
new_system_event now now_ms room_name message = record {
  id = codes "sys-" ++ decimal now;
  kind = codes "system";
  room = room_name;
  sender = codes "system";
  client_id = [];
  text = message;
  sent_at = now_ms;
}

-- The first check that a message fails.
abbrev pub refusal : ChatPostBody → Option Text
refusal b =
    if is_empty b.sender
    then some (codes "sender is required")
    else if is_empty b.text
    then some (codes "text is required")
    else if is_empty b.client_id
    then some (codes "clientId is required")
    else none

-- The body after the trims.
abbrev pub cleaned : (Text → Text) → ChatPostBody → ChatPostBody
cleaned trim_space b = record {
  sender = sanitize_chat_name trim_space b.sender;
  client_id = trim_space b.client_id;
  text = trim_space b.text;
}

abbrev pub message_event : ℕ → ℕ → Text → ChatPostBody → ChatEvent
message_event now now_ms room b = record {
  id = codes "msg-" ++ decimal now;
  kind = codes "message";
  room = room;
  sender = b.sender;
  client_id = b.client_id;
  text = b.text;
  sent_at = now_ms;
}

-- A struct body is a table with the names of its tags.
abbrev field : Text → Value → Text
field name (table t) = or_empty (Dict.lookup name t)
  where
    or_empty : Option Text → Text
    or_empty none = []
    or_empty (some v) = v
field name _ = []

abbrev pub body_of : Value → ChatPostBody
body_of v = record {
  sender = field (codes "sender") v;
  client_id = field (codes "clientId") v;
  text = field (codes "text") v;
}

module _ (mp : Msgpack) (to_lower trim_space : Text → Text) (now now_ms : ℕ) where
  abbrev pub room_of : Context → Text
  room_of c = normalize_room_name to_lower trim_space (param (codes "room") c)

  -- The end of the handler; `none` is the panic of a send on a closed channel.
  abbrev accepted : ChatEvent → Option ChatHub → HandlerFunc ChatHub
  accepted event none r = (r, panicked (codes "send on closed channel"))
  accepted event (some hub) r =
      perform
        (msgpack mp 202 (
          entry (codes "accepted") (boolean true)
            (table ((codes "id", event.id) ∷ (codes "room", room_of r.ctx) ∷ []))))
        (record r { host = hub })

  abbrev post_cleaned : ChatPostBody → Option Text → HandlerFunc ChatHub
  post_cleaned b (some message) r = perform (error mp 400 message []) r
  post_cleaned b none r =
      let event = message_event now now_ms (room_of r.ctx) b in
      accepted event (publish to_lower trim_space (room_of r.ctx) event r.host) r

  abbrev post_bound : Result (Option Value) → HandlerFunc ChatHub
  post_bound (err e) r = perform (error mp 400 (codes "invalid chat payload") []) r
  post_bound (ok v) r =
      let b = cleaned trim_space (body_of (bound (table []) v)) in post_cleaned b (refusal b) r

  -- POST /chat/rooms/:room/messages
  unfoldable pub post_message : HandlerFunc ChatHub
  post_message r = post_bound (bind mp r.ctx) r
