-- ===== src/Examples/ChatHub/Counting.antt =====
-- Subscriptions are counted against the open channels, through each operation on the hub.
use quicframe.Prelude.{
  ℕ, ◌+◌, ◌≤◌, ◌≡◌, refl, false, List, [], ◌∷◌, ◌++◌, All, Option, none, some, length, ap, arith,
}
use quicframe.Prelude.Text.{Text}
use quicframe.Prelude.Dict
use quicframe.Examples.ChatHub.{
  ChatEvent, Channel, ChatRoom, ChatHub, empty_room, put_room, room_or_new, ensure_room, keep_last,
  drop_subscriber, unsubscribe_in, and_channels, subscriber_id, subscribe, publish_locked,
  normalize_room_name,
}
use quicframe.Examples.ChatHub.Channels.{open_at, open_at_le, open_at-append, close_channel-open}
use quicframe.Examples.ChatHub.Subscribers.{
  uses, uses_of, room_uses, all_uses, one_at_self, uses-insert, uses-delete, all_uses-insert,
  room_uses_le, uses_of_le, used,
}

-- Every channel is used at most once, and only while it is open.
abbrev pub IsCounted : ChatHub → Type 0
IsCounted hub = (n : ℕ) → all_uses n hub.rooms ≤ open_at n hub.channels

abbrev pub AreOpen : List Channel → List ℕ → Type 0
AreOpen cs chs = All (λ ch. open_at ch cs ≡ 1) chs

-- What ensure_room leaves alone.
pub record Ensures (name : Text) (hub : ChatHub) (out : ChatRoom × ChatHub) : Type 0 where
  pub found : Dict.lookup name out.1.rooms ≡ some out.0
  pub uses_same : (n : ℕ) → all_uses n out.1.rooms ≡ all_uses n hub.rooms
  pub channels : out.1.channels ≡ hub.channels

room_or_new-Ensures :
    (name : Text) (o : Option ChatRoom) (hub : ChatHub)
    → Dict.lookup name hub.rooms ≡ o
    → Ensures name hub (room_or_new name o hub)
room_or_new-Ensures name (some room) hub e = record {
  found = e;
  uses_same = λ n. refl;
  channels = refl;
}
room_or_new-Ensures name none hub e = record {
  found = Dict.lookup-insert_self name empty_room hub.rooms;
  uses_same = λ n. omega (arith, all_uses-insert n name empty_room hub.rooms, ap (room_uses n) e);
  channels = refl;
}

pub ensure_room-Ensures : (name : Text) (hub : ChatHub) → Ensures name hub (ensure_room name hub)
unfolding ensure_room
ensure_room-Ensures name hub = room_or_new-Ensures name (Dict.lookup name hub.rooms) hub refl

-- A room that is there is replaced.
put_room-uses :
    (n : ℕ) (name : Text) (old room : ChatRoom) (hub : ChatHub)
    → Dict.lookup name hub.rooms ≡ some old
    → all_uses n (put_room name room hub).rooms + uses n old.subscribers
      ≡ all_uses n hub.rooms + uses n room.subscribers
put_room-uses n name old room hub e =
    omega (arith, all_uses-insert n name room hub.rooms, ap (room_uses n) e)

drop_subscriber-IsCounted :
    (name id : Text) (room : ChatRoom) (o : Option ℕ) (hub : ChatHub)
    → Dict.lookup name hub.rooms ≡ some room
    → Dict.lookup id room.subscribers ≡ o
    → IsCounted hub
    → (hub' : ChatHub) × (drop_subscriber name id room o hub ≡ some hub') × IsCounted hub'
drop_subscriber-IsCounted name id room none hub e f counted = (hub, refl, counted)
drop_subscriber-IsCounted name id room (some ch) hub e f counted =
    let is_open : open_at ch hub.channels ≡ 1 = omega (
      arith,
      uses_of_le ch id room.subscribers,
      ap (uses_of ch) f,
      one_at_self ch,
      room_uses_le ch name hub.rooms,
      ap (room_uses ch) e,
      counted ch,
      open_at_le ch hub.channels,
    ) in
    let (cs, closed, same) = close_channel-open ch hub.channels is_open in
    let left = record room { subscribers = Dict.delete id room.subscribers } in
    (
      record (put_room name left hub) { channels = cs },
      ap (λ r. and_channels r (put_room name left hub)) closed,
      λ n. omega (
        arith,
        put_room-uses n name room left hub e,
        uses-delete n id ch room.subscribers f,
        counted n,
        same n,
      ),
    )

pub unsubscribe_in-IsCounted :
    (name id : Text) (o : Option ChatRoom) (hub : ChatHub)
    → Dict.lookup name hub.rooms ≡ o
    → IsCounted hub
    → (hub' : ChatHub) × (unsubscribe_in name id o hub ≡ some hub') × IsCounted hub'
unsubscribe_in-IsCounted name id none hub e counted = (hub, refl, counted)
unsubscribe_in-IsCounted name id (some room) hub e counted =
    drop_subscriber-IsCounted name id room (Dict.lookup id room.subscribers) hub e refl counted

module _ (to_lower trim_space : Text → Text) where
  pub subscribe-IsCounted :
      (now : ℕ) (room : Text) (hub : ChatHub)
      → IsCounted hub
      → IsCounted (subscribe to_lower trim_space now room hub)
  unfolding subscribe
  subscribe-IsCounted now room hub counted n =
      let name = normalize_room_name to_lower trim_space room in
      let ensured = ensure_room name hub in
      let ok = ensure_room-Ensures name hub in
      let put =
        put_room-uses n name ensured.0
          (record ensured.0 {
            subscribers =
                Dict.insert (subscriber_id now) (length hub.channels) ensured.0.subscribers;
          })
          ensured.1 ok.found in
      omega (
        arith,
        put,
        ok.uses_same n,
        counted n,
        uses-insert n (subscriber_id now) (length hub.channels) ensured.0.subscribers,
        open_at-append n hub.channels (record { buffer = []; closed = false }) refl,
      )

  pub subscribe-open :
      (now : ℕ) (room : Text) (hub : ChatHub) (n : ℕ)
      → open_at n hub.channels ≤ open_at n (subscribe to_lower trim_space now room hub).channels
  unfolding subscribe
  subscribe-open now room hub n =
      omega (arith, open_at-append n hub.channels (record { buffer = []; closed = false }) refl)

  pub publish_locked-open :
      (room : Text) (event : ChatEvent) (hub : ChatHub) (n : ℕ)
      → open_at n hub.channels
        ≤ open_at n (publish_locked to_lower trim_space room event hub).1.channels
  unfolding publish_locked
  publish_locked-open room event hub n =
      let same =
        (ensure_room-Ensures (normalize_room_name to_lower trim_space room) hub).channels in
      omega (arith, ap (open_at n) same)

  pub publish_locked-IsCounted :
      (room : Text) (event : ChatEvent) (hub : ChatHub)
      → IsCounted hub
      → IsCounted (publish_locked to_lower trim_space room event hub).1
  unfolding publish_locked
  publish_locked-IsCounted room event hub counted n =
      let name = normalize_room_name to_lower trim_space room in
      let ensured = ensure_room name hub in
      let ok = ensure_room-Ensures name hub in
      let put =
        put_room-uses n name ensured.0
          (record ensured.0 {
            history = keep_last (ensured.0.history ++ record event { room = name } ∷ []);
          })
          ensured.1 ok.found in
      omega (arith, put, ok.uses_same n, counted n, ap (open_at n) ok.channels)

  -- A publisher finds open channels.
  pub publish_locked-AreOpen :
      (room : Text) (event : ChatEvent) (hub : ChatHub)
      → IsCounted hub
      → AreOpen
          (publish_locked to_lower trim_space room event hub).1.channels
          (publish_locked to_lower trim_space room event hub).0
  unfolding publish_locked
  publish_locked-AreOpen room event hub counted =
      let name = normalize_room_name to_lower trim_space room in
      let ensured = ensure_room name hub in
      let ok = ensure_room-Ensures name hub in
      used (λ ch. open_at ch ensured.1.channels ≡ 1) ensured.0.subscribers
        (λ ch more. omega (
          arith,
          more,
          room_uses_le ch name ensured.1.rooms,
          ap (room_uses ch) ok.found,
          ok.uses_same ch,
          counted ch,
          ap (open_at ch) ok.channels,
          open_at_le ch ensured.1.channels,
        ))
