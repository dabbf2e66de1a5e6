-- ===== src/Examples/ItemStreams.antt =====
-- examples/streaming-demo/main.go: the handlers that stream a number of items, /stream/batch/:n and
-- /stream/slow/:n. `scan` is fmt.Sscanf with %d: the number that it reads, 0 for a negative one (the
-- loop runs as often for it), or nothing where the variable keeps its value.
pub mod Output
use quicframe.Prelude.{
  ℕ, zero, suc, ◌+◌, ◌*◌, List, [], ◌∷◌, ◌++◌, Option, none, some, Result, ok, err, ltb,
  if◌then◌else◌,
}
use quicframe.Prelude.Text.{Text, Bytes, codes, decimal}
use quicframe.Protocol.Types.{Value, number, text, table, entry}
use quicframe.Protocol.Stream.{Stream}
use quicframe.Protocol.Codec.{Msgpack}
use quicframe.Framework.Context.{Context, Act, param, error}
use quicframe.Framework.Context.Writer
use quicframe.Framework.Context.Writer.{StreamWriter, new_stream}

-- `data, _ := msgpack.Marshal(...)`
abbrev pub bytes_or_nil : Result Bytes → Bytes
bytes_or_nil (ok b) = b
bytes_or_nil (err e) = []

-- `count` keeps its value where nothing is read.
abbrev pub scanned : ℕ → Option ℕ → ℕ
scanned initial none = initial
scanned initial (some n) = n

-- A failed write ends the loop.
abbrev pub on_written :
    Result ℕ → StreamWriter × Stream → StreamWriter × Stream → StreamWriter × Stream
on_written (ok n) here rest = rest
on_written (err e) here rest = here

-- The sign in the messages is three bytes.
abbrev pub at_most : Text → Text
at_most limit = codes "n must be " ++ (0xE2 ∷ 0x89 ∷ 0xA4 ∷ b' ' ∷ limit)

module _ (mp : Msgpack) where
  -- The loop from item `i` on, for so many items.
  unfoldable pub write_items : (ℕ → Bytes) → ℕ → ℕ → StreamWriter × Stream → StreamWriter × Stream
  write_items item i zero x = x
  write_items item i (suc k) (sw, s) =
      let w = Writer.write mp (item i) sw s in
      let rest = write_items item (suc i) k (w.0, w.1) in on_written w.2 (w.0, w.1) rest

  -- What follows NewStream, with the deferred Close.
  abbrev pub close_after : Context → StreamWriter × Stream → Context × Result (Unit {0})
  close_after c (sw, s) = (record c { stream = (Writer.close mp sw s).1 }, ok tt)

  abbrev pub opened_items :
      (ℕ → Bytes) → ℕ → Context × Result StreamWriter → Context × Result (Unit {0})
  opened_items item count (c, err e) = (c, err e)
  opened_items item count (c, ok sw) = close_after c (write_items item 0 count (sw, c.stream))

  abbrev pub refuse_over : ℕ → Text → (ℕ → Bytes) → ℕ → Act (Unit {0})
  refuse_over limit message item count c =
      if ltb limit count
      then error mp 400 message [] c
      else opened_items item count (new_stream mp 200 [] c)

  abbrev pub batch_item : ℕ → Bytes
  batch_item i = bytes_or_nil (
      mp.marshal
        (entry (codes "index") (number i) (entry (codes "value") (number (i * i)) (table []))))

  abbrev pub slow_item : ℕ → ℕ → Bytes
  slow_item count i = bytes_or_nil (
      mp.marshal (
        entry (codes "seq") (number i) (
          table (
            (codes "msg", codes "slow chunk " ++ (decimal (i + 1) ++ (codes "/" ++ decimal count)))
            ∷ []))))

  unfoldable pub batch : (Text → Option ℕ) → Act (Unit {0})
  batch scan c =
      refuse_over 10000 (at_most (codes "10000")) batch_item
        (scanned 100 (scan (param (codes "n") c))) c

  unfoldable pub slow : (Text → Option ℕ) → Act (Unit {0})
  slow scan c =
      let count = scanned 5 (scan (param (codes "n") c)) in
      refuse_over 60 (at_most (codes "60")) (slow_item count) count c
