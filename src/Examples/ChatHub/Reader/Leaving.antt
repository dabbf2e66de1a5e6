-- ===== src/Examples/ChatHub/Reader/Leaving.antt =====
-- The calls of a reader's unsubscribe.
use quicframe.Prelude.{
  Bool, true, false, ℕ, suc, ◌≡◌, refl, List, [], ◌∷◌, ◌++◌, Option, none, some, Result, ok, err,
  ap, sym, append-nil, ◌∙◌,
}
use quicframe.Protocol.Stream.{Stream}
use quicframe.Protocol.Codec.{Msgpack}
use quicframe.Framework.Context.{Context}
use quicframe.Framework.Context.Writer.{StreamWriter}
use quicframe.Examples.PushStreams.{Failure, Pushed, write_value}
use quicframe.Examples.ChatHub.{ChatEvent}
use quicframe.Examples.ChatHub.Runs.{Step, unsubscribing}
use quicframe.Examples.ChatHub.Reader.{
  Subscription, Reading, waiting, event_value, take_on, read_events, leaving, after_reading,
  after_history, after_opening, room_stream,
}

abbrev pub unsubscriptions : List Step → ℕ
unsubscriptions [] = 0
unsubscriptions (unsubscribing room id ∷ steps) = suc (unsubscriptions steps)
unsubscriptions (_ ∷ steps) = unsubscriptions steps

abbrev pub returns : Reading → ℕ
returns (waiting c sw) = 0
returns _ = 1

module _ (mp : Msgpack) (sub : Subscription) (joined left : ChatEvent) where
  take_on-steps :
      (f : Option Failure) (here : StreamWriter × Stream) (rest : List Step × Pushed)
      → ((more : List Step) → unsubscriptions (rest.0 ++ more) ≡ unsubscriptions more)
      → (more : List Step)
      → unsubscriptions ((take_on sub.channel f here rest).0 ++ more) ≡ unsubscriptions more
  take_on-steps none here rest h more = h more
  take_on-steps (some f) here rest h more = refl

  read_events-steps :
      (es : List ChatEvent) (x : StreamWriter × Stream) (more : List Step)
      → unsubscriptions ((read_events mp sub joined left es x).0 ++ more) ≡ unsubscriptions more
  unfolding read_events
  read_events-steps [] x more = refl
  read_events-steps (e ∷ es) x more =
      let w = write_value mp (event_value e) x in
      take_on-steps w.1 w.0 _ (read_events-steps es w.0) more

  after_reading-returns :
      (closed : Bool) (c : Context) (r : List Step × Pushed)
      → ((more : List Step) → unsubscriptions (r.0 ++ more) ≡ unsubscriptions more)
      → unsubscriptions (after_reading mp sub joined left closed c r).0
        ≡ returns (after_reading mp sub joined left closed c r).1
  after_reading-returns false c (steps, ((sw, s), none)) h =
      ap unsubscriptions (sym (append-nil steps)) ∙ h []
  after_reading-returns true c (steps, (x, none)) h = h (leaving mp sub joined left)
  after_reading-returns false c (steps, (x, some f)) h = h (leaving mp sub joined left)
  after_reading-returns true c (steps, (x, some f)) h = h (leaving mp sub joined left)

  after_history-returns :
      (received : List ChatEvent) (closed : Bool) (c : Context) (w : Pushed)
      → unsubscriptions (after_history mp sub joined left received closed c w).0
        ≡ returns (after_history mp sub joined left received closed c w).1
  after_history-returns received closed c (x, none) =
      after_reading-returns closed c (read_events mp sub joined left received x)
        (read_events-steps received x)
  after_history-returns received closed c (x, some f) = refl

  after_opening-returns :
      (received : List ChatEvent) (closed : Bool) (o : Context × Result StreamWriter)
      → unsubscriptions (after_opening mp sub joined left received closed o).0
        ≡ returns (after_opening mp sub joined left received closed o).1
  after_opening-returns received closed (c, err e) = refl
  after_opening-returns received closed (c, ok sw) = after_history-returns received closed c _

  -- A reader's handler calls its unsubscribe once, on every way out: for every history and all
  -- events received, whichever call on the stream fails, and whether the channel has ended or not,
  -- the handler has called it once when it returns, and not at all while it waits for the next event.
  pub room_stream-returns :
      (received : List ChatEvent) (closed : Bool) (c : Context)
      → unsubscriptions (room_stream mp sub joined left received closed c).0
        ≡ returns (room_stream mp sub joined left received closed c).1
  unfolding room_stream
  room_stream-returns received closed c = after_opening-returns received closed _
