-- ===== src/Examples/ChatHub/History.antt =====
-- What a room's history is in every run.
use quicframe.Prelude.{
  some_injective, ℕ, ◌≡◌, refl, List, [], ◌∷◌, ◌++◌, Option, none, some, if◌then◌else◌, ap, sym,
  ◌∙◌, subst, arith, append_assoc, append-nil, Bool-cases, inl, inr,
}
use quicframe.Prelude.Text.{Text, text_eq, text_eq_iff}
use quicframe.Prelude.Dict
use quicframe.Framework.App.Serving.{take_at}
use quicframe.Examples.ChatHub.{
  ChatEvent, Channel, ChatRoom, ChatHub, ensure_room, keep_last, drop_subscriber, unsubscribe_in,
  unsubscribe, and_channels, close_channel, subscribe, publish_locked, room_event,
  normalize_room_name, send,
}
use quicframe.Examples.ChatHub.Runs.{
  System, Step, subscribing, unsubscribing, publishing, sending, receiving, at_rest, with_hub,
  with_channels, send_next, and_steps, step, run,
}
use quicframe.Examples.ChatHub.Rooms.{
  room_history, history_of, IsEnd, keep_last-IsEnd, put_room-history_of, put_room-same,
  ensure_room-history, ensure_room-history_of,
}

module _ (to_lower trim_space : Text → Text) (m : Text) where
  subscribe-history_of :
      (now : ℕ) (room : Text) (hub : ChatHub)
      → history_of m (subscribe to_lower trim_space now room hub) ≡ history_of m hub
  unfolding subscribe
  subscribe-history_of now room hub =
      let name = normalize_room_name to_lower trim_space room in
      put_room-same name m _ (ensure_room name hub).1
        (ensure_room-history name hub ∙ sym (ensure_room-history_of name name hub))
      ∙ ensure_room-history_of name m hub

  publish_locked-history_of :
      (room : Text) (event : ChatEvent) (hub : ChatHub)
      → history_of m (publish_locked to_lower trim_space room event hub).1 ≡ (
          if text_eq (normalize_room_name to_lower trim_space room) m
          then keep_last (history_of m hub ++ room_event to_lower trim_space room event ∷ [])
          else history_of m hub)
  unfolding publish_locked
  publish_locked-history_of room event hub =
      let name = normalize_room_name to_lower trim_space room in
      put_room-history_of name m _ (ensure_room name hub).1 ∙ elim (Bool-cases (text_eq name m)) [
        | inl e ↦ rw e (
            ap (λ h. keep_last (h ++ room_event to_lower trim_space room event ∷ []))
              (ensure_room-history name hub
                ∙ ap (λ n. history_of n hub) ((text_eq_iff name m).0 e)))
        | inr e ↦ rw e (ensure_room-history_of name m hub)
      ]

  -- What a step publishes to the room, and what the steps of a run do.
  abbrev pub published_by : Step → List ChatEvent
  published_by (publishing room event) =
      if text_eq (normalize_room_name to_lower trim_space room) m
      then room_event to_lower trim_space room event ∷ []
      else []
  published_by _ = []

  abbrev pub published_to : List Step → List ChatEvent
  published_to [] = []
  published_to (e ∷ es) = published_by e ++ published_to es

  same-IsEnd : {past h h' : List ChatEvent} → h' ≡ h → IsEnd past h → IsEnd (past ++ []) h'
  same-IsEnd {past} {h} {h'} same x =
      subst (λ p. IsEnd p h') (sym (append-nil past)) (subst (IsEnd past) (sym same) x)

  and_channels-history_of :
      (o : Option (List Channel)) (hub : ChatHub) {hub' : ChatHub}
      → and_channels o hub ≡ some hub'
      → history_of m hub' ≡ history_of m hub
  and_channels-history_of none hub h = cc
  and_channels-history_of (some cs) hub h = ap (history_of m) (sym (some_injective h))

  drop_subscriber-history_of :
      (name id : Text) (room : ChatRoom) (o : Option ℕ) (hub : ChatHub) {hub' : ChatHub}
      → room.history ≡ history_of name hub
      → drop_subscriber name id room o hub ≡ some hub'
      → history_of m hub' ≡ history_of m hub
  drop_subscriber-history_of name id room none hub same h =
      ap (history_of m) (sym (some_injective h))
  drop_subscriber-history_of name id room (some ch) hub same h =
      and_channels-history_of (close_channel ch hub.channels) _ h ∙ put_room-same name m _ hub same

  unsubscribe_in-history_of :
      (name id : Text) (o : Option ChatRoom) (hub : ChatHub) {hub' : ChatHub}
      → o ≡ Dict.lookup name hub.rooms
      → unsubscribe_in name id o hub ≡ some hub'
      → history_of m hub' ≡ history_of m hub
  unsubscribe_in-history_of name id none hub e h = ap (history_of m) (sym (some_injective h))
  unsubscribe_in-history_of name id (some room) hub e h =
      drop_subscriber-history_of name id room (Dict.lookup id room.subscribers) hub
        (ap room_history e) h

  with_hub-history_of :
      (s : System) (o : Option ChatHub) {t : System}
      → ((hub' : ChatHub) → o ≡ some hub' → history_of m hub' ≡ history_of m s.hub)
      → with_hub s o ≡ some t
      → history_of m t.hub ≡ history_of m s.hub
  with_hub-history_of s none same h = cc
  with_hub-history_of s (some hub) same h =
      ap (λ t. history_of m t.hub) (sym (some_injective h)) ∙ same hub refl

  with_channels-history_of :
      (s : System) (o : Option (List Channel)) {t : System}
      → with_channels s o ≡ some t
      → history_of m t.hub ≡ history_of m s.hub
  with_channels-history_of s none h = cc
  with_channels-history_of s (some cs) h = ap (λ t. history_of m t.hub) (sym (some_injective h))

  send_next-history_of :
      (s : System) (o : Option ((ChatEvent × List ℕ) × List (ChatEvent × List ℕ))) {t : System}
      → send_next o s ≡ some t
      → history_of m t.hub ≡ history_of m s.hub
  send_next-history_of s none h = ap (λ t. history_of m t.hub) (sym (some_injective h))
  send_next-history_of s (some ((event, []), others)) h =
      ap (λ t. history_of m t.hub) (sym (some_injective h))
  send_next-history_of s (some ((event, ch ∷ chs), others)) h =
      with_channels-history_of (record s { publishers = (event, chs) ∷ others })
        (send event ch s.hub.channels) h

  published-IsEnd :
      (past : List ChatEvent) (room : Text) (event : ChatEvent) (hub : ChatHub)
      → IsEnd past (history_of m hub)
      → IsEnd
          (past ++ published_by (publishing room event))
          (history_of m (publish_locked to_lower trim_space room event hub).1)
  published-IsEnd past room event hub x =
      subst (IsEnd (past ++ published_by (publishing room event)))
        (sym (publish_locked-history_of room event hub))
        (elim (Bool-cases (text_eq (normalize_room_name to_lower trim_space room) m)) [
          | inl e ↦ rw e (
              keep_last-IsEnd past (history_of m hub) (room_event to_lower trim_space room event) x)
          | inr e ↦ rw e (same-IsEnd refl x)
        ])

  step-IsEnd :
      (past : List ChatEvent) (e : Step) (s : System) {t : System}
      → step to_lower trim_space e s ≡ some t
      → IsEnd past (history_of m s.hub)
      → IsEnd (past ++ published_by e) (history_of m t.hub)
  unfolding unsubscribe
  step-IsEnd past (subscribing now room) s h x =
      same-IsEnd
        (ap (λ t. history_of m t.hub) (sym (some_injective h))
          ∙ subscribe-history_of now room s.hub)
        x
  step-IsEnd past (unsubscribing room id) s h x =
      same-IsEnd
        (with_hub-history_of s (unsubscribe room id s.hub)
          (λ hub' e. unsubscribe_in-history_of room id (Dict.lookup room s.hub.rooms) s.hub refl e)
          h)
        x
  step-IsEnd past (publishing room event) s h x =
      subst (λ t. IsEnd (past ++ published_by (publishing room event)) (history_of m t.hub))
        (some_injective h) (published-IsEnd past room event s.hub x)
  step-IsEnd past (sending n) s h x =
      same-IsEnd (send_next-history_of s (take_at n s.publishers) h) x
  step-IsEnd past (receiving ch) s h x =
      same-IsEnd (ap (λ t. history_of m t.hub) (sym (some_injective h))) x

  and_steps_inv :
      (o : Option System) (f : System → Option System) {t : System}
      → and_steps o f ≡ some t
      → (s : System) × (o ≡ some s) × (f s ≡ some t)
  and_steps_inv none f h = cc
  and_steps_inv (some s) f h = (s, refl, h)

  run-IsEnd :
      (past : List ChatEvent) (es : List Step) (s : System) {t : System}
      → run to_lower trim_space es s ≡ some t
      → IsEnd past (history_of m s.hub)
      → IsEnd (past ++ published_to es) (history_of m t.hub)
  unfolding run
  run-IsEnd past [] s h x = same-IsEnd (ap (λ t. history_of m t.hub) (sym (some_injective h))) x
  run-IsEnd past (e ∷ es) s {t} h x =
      let (u, stepped, rest) =
        and_steps_inv (step to_lower trim_space e s) (run to_lower trim_space es) h in
      subst (λ p. IsEnd p (history_of m t.hub))
        (append_assoc past (published_by e) (published_to es))
        (run-IsEnd (past ++ published_by e) es u rest (step-IsEnd past e s stepped x))

  -- In every interleaving of subscribers, readers and publishers from an empty hub, as long as
  -- nothing panicked, a room's history is the end of what was published to the room, in order:
  -- all of it, or its last 120 events.
  pub run-history :
      (es : List Step) (t : System)
      → run to_lower trim_space es at_rest ≡ some t
      → IsEnd (published_to es) (history_of m t.hub)
  unfolding Dict.lookup
  run-history es t h =
      run-IsEnd [] es at_rest h
        (record { forgotten = []; split = refl; short = omega arith; full = inl refl })
