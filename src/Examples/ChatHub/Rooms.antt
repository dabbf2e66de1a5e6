-- ===== src/Examples/ChatHub/Rooms.antt =====
-- The history of a room: what one publication and a change of the rooms do to it.
use quicframe.Prelude.{
  suc, ◌-◌, ◌≤◌, ◌<◌, ◌≡◌, refl, true, false, List, [], ◌∷◌, ◌++◌, Option, none, some, length,
  length-append, drop, Bool, ltb, if◌then◌else◌, ap, sym, ◌∙◌, subst, arith, append_assoc,
  append-nil, Bool-cases, inl, inr, ◌⊎◌,
}
use quicframe.Prelude.Text.{Text, text_eq, text_eq_iff}
use quicframe.Prelude.Dict
use quicframe.Examples.ChatHub.{
  ChatEvent, ChatRoom, ChatHub, chat_history_limit, empty_room, put_room, room_or_new, ensure_room,
  keep_last,
}

abbrev pub room_history : Option ChatRoom → List ChatEvent
room_history none = []
room_history (some room) = room.history

abbrev pub history_of : Text → ChatHub → List ChatEvent
history_of name hub = room_history (Dict.lookup name hub.rooms)

-- The history is the end of what was published: all of it, or the last 120 events.
pub record IsEnd (published history : List ChatEvent) : Type 0 where
  pub forgotten : List ChatEvent
  pub split : published ≡ forgotten ++ history
  pub short : length history ≤ chat_history_limit
  pub full : (forgotten ≡ []) ⊎ (length history ≡ chat_history_limit)

-- An event more.
pub keep_last-IsEnd :
    (published history : List ChatEvent) (e : ChatEvent)
    → IsEnd published history
    → IsEnd (published ++ e ∷ []) (keep_last (history ++ e ∷ []))
keep_last-IsEnd published [] e x = record {
  forgotten = published;
  split = refl;
  short = omega arith;
  full = inl (nothing x.full);
}
  where
    nothing : (x.forgotten ≡ []) ⊎ (0 ≡ chat_history_limit) → published ≡ []
    nothing (inl none_gone) = x.split ∙ (append-nil x.forgotten ∙ none_gone)
    nothing (inr full) = absurd (omega (arith, full))
keep_last-IsEnd published (y ∷ history) e x =
    elim (Bool-cases (ltb chat_history_limit (length (y ∷ history ++ e ∷ [])))) [
      | inl over ↦
          let long : chat_history_limit < suc (length (history ++ e ∷ [])) = ground (arith, over) in
          let exact : length history ≡ 119 =
            omega (arith, long, x.short, length-append history (e ∷ [])) in
          let one : suc (length (history ++ e ∷ [])) - chat_history_limit ≡ 1 =
            omega (arith, exact, length-append history (e ∷ [])) in
          let kept : keep_last (y ∷ history ++ e ∷ []) ≡ history ++ e ∷ [] =
            rw over (ap (λ n. drop n (y ∷ (history ++ e ∷ []))) one) in
          subst (IsEnd (published ++ e ∷ [])) (sym kept) (record {
            forgotten = x.forgotten ++ y ∷ [];
            split =
                ap (λ l. l ++ e ∷ []) x.split
                ∙ (append_assoc x.forgotten (y ∷ history) (e ∷ [])
                    ∙ sym (append_assoc x.forgotten (y ∷ []) (history ++ e ∷ [])));
            short = omega (arith, exact, length-append history (e ∷ []));
            full = inr (omega (arith, exact, length-append history (e ∷ [])));
          })
      | inr fits ↦
          let few : suc (length (history ++ e ∷ [])) ≤ chat_history_limit = ground (arith, fits) in
          subst (IsEnd (published ++ e ∷ [])) (rw fits) (record {
            forgotten = x.forgotten;
            split = ap (λ l. l ++ e ∷ []) x.split ∙ append_assoc x.forgotten (y ∷ history) (e ∷ []);
            short = few;
            full = elim x.full [
              | inl none_gone ↦ inl none_gone
              | inr full ↦ absurd (omega (arith, full, few, length-append history (e ∷ [])))
            ];
          })
    ]

pub put_room-history_of :
    (name other : Text) (room : ChatRoom) (hub : ChatHub)
    → history_of other (put_room name room hub)
      ≡ (if text_eq name other then room.history else history_of other hub)
put_room-history_of name other room hub =
    ap room_history (Dict.lookup-insert name other room hub.rooms) ∙ chosen (text_eq name other)
  where
    chosen :
        (b : Bool)
        → room_history (if b then some room else Dict.lookup other hub.rooms)
          ≡ (if b then room.history else history_of other hub)
    chosen true = refl
    chosen false = refl

-- A room that is put back with its history.
pub put_room-same :
    (name other : Text) (room : ChatRoom) (hub : ChatHub)
    → room.history ≡ history_of name hub
    → history_of other (put_room name room hub) ≡ history_of other hub
put_room-same name other room hub same =
    put_room-history_of name other room hub ∙ elim (Bool-cases (text_eq name other)) [
      | inl e ↦ rw e (same ∙ ap (λ n. history_of n hub) ((text_eq_iff name other).0 e))
      | inr e ↦ rw e
    ]

room_or_new-history :
    (name : Text) (o : Option ChatRoom) (hub : ChatHub)
    → (room_or_new name o hub).0.history ≡ room_history o
room_or_new-history name none hub = refl
room_or_new-history name (some room) hub = refl

room_or_new-history_of :
    (name other : Text) (o : Option ChatRoom) (hub : ChatHub)
    → o ≡ Dict.lookup name hub.rooms
    → history_of other (room_or_new name o hub).1 ≡ history_of other hub
room_or_new-history_of name other none hub e =
    put_room-same name other empty_room hub (ap room_history e)
room_or_new-history_of name other (some room) hub e = refl

pub ensure_room-history :
    (name : Text) (hub : ChatHub) → (ensure_room name hub).0.history ≡ history_of name hub
unfolding ensure_room
ensure_room-history name hub = room_or_new-history name (Dict.lookup name hub.rooms) hub

pub ensure_room-history_of :
    (name other : Text) (hub : ChatHub)
    → history_of other (ensure_room name hub).1 ≡ history_of other hub
unfolding ensure_room
ensure_room-history_of name other hub =
    room_or_new-history_of name other (Dict.lookup name hub.rooms) hub refl
