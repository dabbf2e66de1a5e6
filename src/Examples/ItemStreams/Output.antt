-- ===== src/Examples/ItemStreams/Output.antt =====
-- What the handlers put on the wire.
use quicframe.Prelude.{
  ℕ, zero, suc, ◌+◌, ◌%◌, ◌^◌, ◌<◌, ◌≤◌, ◌≡◌, refl, true, false, List, [], ◌∷◌, ◌++◌, Option, ok,
  All, length, ltb, if◌then◌else◌, append_assoc, ap, subst, sym, ◌∙◌, arith,
}
use quicframe.Prelude.Text.{Text, Bytes, codes}
use quicframe.Protocol.Types.{StreamChunk, response, frame_type_stream_data, frame_type_response}
use quicframe.Protocol.Stream.{Stream}
use quicframe.Protocol.Codec.{Msgpack}
use quicframe.Protocol.Codec.Frames.{frame, Fits, write_frame-ok}
use quicframe.Framework.Context
use quicframe.Framework.Context.{Context, param}
use quicframe.Framework.Context.Opening.{new_stream-clean}
use quicframe.Framework.Context.Writer
use quicframe.Framework.Context.Writer.{StreamWriter, new_stream}
use quicframe.Framework.Context.Streaming
use quicframe.Framework.Context.Streaming.{Call, calls, chunks, Encodes, image, calls-image}
use quicframe.Examples.ItemStreams.{
  scanned, on_written, write_items, opened_items, refuse_over, at_most, batch_item, batch,
}

-- The calls for so many items from `i` on: a write for each, and a close.
abbrev pub item_calls : (ℕ → Bytes) → ℕ → ℕ → List Call
item_calls item i zero = Streaming.close ∷ []
item_calls item i (suc k) = Streaming.write (item i) ∷ item_calls item (suc i) k

length-item_calls : (item : ℕ → Bytes) (i k : ℕ) → length (item_calls item i k) ≡ suc k
length-item_calls item i zero = refl
length-item_calls item i (suc k) = ap suc (length-item_calls item (suc i) k)

module _ (mp : Msgpack) (enc : StreamChunk → Bytes) where
  pub write-clean :
      (bs : Bytes) (sw : StreamWriter) (s : Stream)
      → sw.closed ≡ false
      → sw.seq + 1 < 2 ^ 64
      → s.faults ≡ []
      → Encodes mp enc (
        frame_type_stream_data,
        record { id = sw.request_id; seq = sw.seq; chunk = bs; final = false },
      )
      → Writer.write mp bs sw s ≡ (
        record sw { seq = sw.seq + 1 },
        record s {
          output =
              s.output
              ++ frame frame_type_stream_data
                  (enc (record { id = sw.request_id; seq = sw.seq; chunk = bs; final = false }));
        },
        ok (length bs),
      )
  unfolding Writer.write
  write-clean bs sw s h k clean (encodes, fits) =
      let small : (sw.seq + 1) % 2 ^ 64 ≡ sw.seq + 1 = omega arith in
      rw (h, write_frame-ok mp frame_type_stream_data _ _ s encodes fits clean, small)

  -- On a clean stream no write ends the loop early.
  write_items-calls :
      (item : ℕ → Bytes) (i k : ℕ) (sw : StreamWriter) (s : Stream)
      → sw.closed ≡ false
      → sw.seq + suc k < 2 ^ 64
      → s.faults ≡ []
      → All (Encodes mp enc) (chunks sw.request_id sw.seq (item_calls item i k))
      → calls mp (Streaming.close ∷ []) (write_items mp item i k (sw, s))
        ≡ calls mp (item_calls item i k) (sw, s)
  unfolding write_items
  write_items-calls item i zero sw s h few clean all = refl
  write_items-calls item i (suc k) sw s h few clean (first, rest) =
      let written = write-clean (item i) sw s h (omega arith) clean first in
      ap
        (λ w.
          calls mp (Streaming.close ∷ [])
            (on_written w.2 (w.0, w.1) (write_items mp item (suc i) k (w.0, w.1))))
        written
      ∙ (write_items-calls item (suc i) k _ _ h (omega arith) clean rest
          ∙ ap (λ w. calls mp (item_calls item (suc i) k) (w.0, w.1)) (sym written))

  -- The stream with the response's header and the items on it.
  abbrev pub with_items : (ℕ → Bytes) → ℕ → Bytes → Context → Stream
  with_items item count payload c = record c.stream {
    output =
        c.stream.output
        ++ (frame frame_type_response payload
            ++ image mp enc (chunks c.request.id 0 (item_calls item 0 count)));
  }

  module _ (item : ℕ → Bytes) (count : ℕ) (payload : Bytes) (c : Context) (unsent : c.sent ≡ false)
      (clean : c.stream.faults ≡ [])
      (encoded : mp.marshal (
          response
            (record { id = c.request.id; status = 200; headers = []; body = []; stream = true }))
        ≡ ok payload)
      (fits : Fits payload)
      (items : All (Encodes mp enc) (chunks c.request.id 0 (item_calls item 0 count))) where
    abbrev begun : Stream
    begun = record c.stream { output = c.stream.output ++ frame frame_type_response payload }

    abbrev writer : StreamWriter
    writer = record { request_id = c.request.id; seq = 0; closed = false }

    refuse_over-output :
        (limit : ℕ) (message : Text)
        → count ≤ limit
        → limit < 2 ^ 63
        → ((refuse_over mp limit message item count c).0.stream ≡ with_items item count payload c)
          × ((refuse_over mp limit message item count c).1 ≡ ok tt)
    refuse_over-output limit message few small =
        let within : ltb limit count ≡ false = ground (arith, few) in
        let admitted : refuse_over mp limit message item count c
            ≡ opened_items mp item count (new_stream mp 200 [] c) =
          ap
            (λ b.
              if b
              then Context.error mp 400 message [] c
              else opened_items mp item count (new_stream mp 200 [] c))
            within in
        let sent =
          admitted
          ∙ ap (opened_items mp item count)
              (new_stream-clean mp [] payload c unsent clean encoded fits) in
        let written =
          ap (λ x. x.1)
            (write_items-calls item 0 count writer begun refl (omega (arith, few, small)) clean
              items) in
        let wire =
          calls-image mp enc (item_calls item 0 count) writer begun refl
            (omega (arith, few, small, length-item_calls item 0 count)) clean items in
        (
          ap (λ x. x.0.stream) sent
              ∙ (written
                  ∙ (wire
                      ∙ ap (λ o. record c.stream { output = o })
                          (append_assoc c.stream.output (frame frame_type_response payload) _))),
          ap (λ x. x.1) sent,
        )

  -- GET /stream/batch/:n on a stream on which no write fails, with a number of items within the
  -- limit: the response's header, then exactly that many data chunks, numbered from 0, each with its
  -- item, then the final frame, and the handler returns nil. Nothing was sent before, and the
  -- response and the chunks encode to bytes that fit.
  pub batch-output :
      (scan : Text → Option ℕ) (payload : Bytes) (c : Context) (count : ℕ)
      → scanned 100 (scan (param (codes "n") c)) ≡ count
      → count ≤ 10000
      → c.sent ≡ false
      → c.stream.faults ≡ []
      → mp.marshal (
          response
            (record { id = c.request.id; status = 200; headers = []; body = []; stream = true }))
        ≡ ok payload
      → Fits payload
      → All (Encodes mp enc) (chunks c.request.id 0 (item_calls (batch_item mp) 0 count))
      → ((batch mp scan c).0.stream ≡ with_items (batch_item mp) count payload c)
        × ((batch mp scan c).1 ≡ ok tt)
  unfolding batch
  batch-output scan payload c count asked few unsent clean encoded fits items =
      subst
        (λ n.
          ((refuse_over mp 10000 (at_most (codes "10000")) (batch_item mp) n c).0.stream
            ≡ with_items (batch_item mp) count payload c)
          × ((refuse_over mp 10000 (at_most (codes "10000")) (batch_item mp) n c).1 ≡ ok tt))
        (sym asked)
        (refuse_over-output (batch_item mp) count payload c unsent clean encoded fits items 10000
          (at_most (codes "10000")) few (omega arith))
