-- ===== src/Examples/PushStreams.antt =====
-- Handlers that push items over time: /stream/:count and /events of cmd/example/main.go, and
-- /stream/ticks of examples/streaming-demo/main.go. What the clock and the timers give is a
-- parameter: `now i` is the time in round `i` of /stream, `ticks` the times of the ticks that a
-- handler receives before its deadline. `scan` is fmt.Sscanf with %d.
pub mod Output
use quicframe.Prelude.{
  ℕ, zero, suc, ◌+◌, List, [], ◌∷◌, ◌++◌, Option, none, some, Result, ok, err, GoError, ltb,
  if◌then◌else◌,
}
use quicframe.Prelude.Text.{Text, Bytes, codes, decimal}
use quicframe.Protocol.Types.{Value, number, text, table, entry}
use quicframe.Protocol.Stream.{Stream}
use quicframe.Protocol.Codec.{Msgpack}
use quicframe.Framework.Context.{Context, Act, param}
use quicframe.Framework.Context.Writer
use quicframe.Framework.Context.Writer.{StreamWriter, new_stream}
use quicframe.Examples.ItemStreams.{scanned}

-- Why an item was not written: its encoding failed, or the write.
pub data Failure : Type 0 where
  unencodable : GoError → Failure
  gone : GoError → Failure

-- What a loop over the items leaves, and why it ended early.
abbrev pub Pushed : Type 0
Pushed = (StreamWriter × Stream) × Option Failure

abbrev pub go_on : Option Failure → StreamWriter × Stream → Pushed → Pushed
go_on none here rest = rest
go_on (some f) here rest = (here, some f)

abbrev pub write_failure : Result ℕ → Option Failure
write_failure (ok n) = none
write_failure (err e) = some (gone e)

-- A failed write ends the handler without an error: the client is gone.
abbrev pub push_result : Option Failure → Result (Unit {0})
push_result none = ok tt
push_result (some (unencodable e)) = err e
push_result (some (gone e)) = ok tt

abbrev stream_item : ℕ → ℕ → ℕ → Value
stream_item count i ts = entry (codes "seq") (number i) (
    entry (codes "data")
      (text (codes "chunk " ++ (decimal (i + 1) ++ (codes " of " ++ decimal count))))
      (entry (codes "ts") (number ts) (table [])))

abbrev stream_items : (ℕ → ℕ) → ℕ → ℕ → ℕ → List Value
stream_items now count i zero = []
stream_items now count i (suc k) = stream_item count i (now i) ∷ stream_items now count (suc i) k

abbrev event_item : ℕ → ℕ → Value
event_item seq ts =
    entry (codes "event") (text (codes "tick"))
      (entry (codes "seq") (number seq) (entry (codes "ts") (number ts) (table [])))

abbrev event_items : ℕ → List ℕ → List Value
event_items seq [] = []
event_items seq (t ∷ ticks) = event_item seq t ∷ event_items (suc seq) ticks

abbrev tick_item : ℕ → ℕ → Value
tick_item i ts = entry (codes "seq") (number i) (
    entry (codes "ts") (number ts)
      (entry (codes "msg") (text (codes "tick #" ++ decimal i)) (table [])))

abbrev tick_items : ℕ → List ℕ → List Value
tick_items i [] = []
tick_items i (t ∷ ticks) = tick_item i t ∷ tick_items (suc i) ticks

abbrev at_most_100 : ℕ → ℕ
at_most_100 count = if ltb 100 count then 100 else count

module _ (mp : Msgpack) where
  -- `msgpack.Marshal` and `Write`, one item.
  abbrev pub write_bytes : Result Bytes → StreamWriter × Stream → Pushed
  write_bytes (err e) (sw, s) = ((sw, s), some (unencodable e))
  write_bytes (ok bs) (sw, s) = let w = Writer.write mp bs sw s in ((w.0, w.1), write_failure w.2)

  abbrev pub write_value : Value → StreamWriter × Stream → Pushed
  write_value v x = write_bytes (mp.marshal v) x

  -- The body of the loops.
  unfoldable pub write_values : List Value → StreamWriter × Stream → Pushed
  write_values [] x = (x, none)
  write_values (v ∷ vs) x =
      let w = write_value v x in let rest = write_values vs w.0 in go_on w.1 w.0 rest

  -- The deferred Close runs whatever the loop returns.
  abbrev pub close_pushed : Context → Pushed → Context × Result (Unit {0})
  close_pushed c ((sw, s), f) = (record c { stream = (Writer.close mp sw s).1 }, push_result f)

  abbrev pub opened_push : List Value → Context × Result StreamWriter → Context × Result (Unit {0})
  opened_push items (c, err e) = (c, err e)
  opened_push items (c, ok sw) = close_pushed c (write_values items (sw, c.stream))

  abbrev pub push_stream : (Text → Option ℕ) → (ℕ → ℕ) → Act (Unit {0})
  push_stream scan now c =
      let count = at_most_100 (scanned 5 (scan (param (codes "count") c))) in
      opened_push (stream_items now count 0 count)
        (new_stream mp 200 ((codes "x-format", codes "msgpack-stream") ∷ []) c)

  abbrev pub push_events : List ℕ → Act (Unit {0})
  push_events ticks c = opened_push (event_items 0 ticks) (new_stream mp 200 [] c)

  abbrev pub push_ticks : List ℕ → Act (Unit {0})
  push_ticks ticks c =
      opened_push (tick_items 0 ticks)
        (new_stream mp 200 ((codes "x-stream", codes "ticks") ∷ []) c)
