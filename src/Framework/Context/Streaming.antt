-- ===== src/Framework/Context/Streaming.antt =====
-- StreamWriter over any sequence of calls: the frames that a peer receives.
use quicframe.Prelude.{
  ℕ, suc, ◌+◌, ◌%◌, ◌^◌, ◌<◌, ◌≡◌, refl, true, false, List, [], ◌∷◌, ◌++◌, ok, All, length,
  append_assoc, append-nil, ap, sym, ◌∙◌, arith,
}
use quicframe.Prelude.Text.{Text, Bytes}
use quicframe.Protocol.Types.{
  FrameType, StreamChunk, chunk, frame_type_stream_data, frame_type_stream_end,
}
use quicframe.Protocol.Stream.{Stream}
use quicframe.Protocol.Codec.{Msgpack}
use quicframe.Protocol.Codec.Frames.{frame, Fits, write_frame-ok}
use quicframe.Framework.Context.Writer
use quicframe.Framework.Context.Writer.{StreamWriter}

-- A call on a stream writer.
pub data Call : Type 0 where
  write : Bytes → Call
  close : Call

module _ (mp : Msgpack) where
  abbrev pub call : Call → StreamWriter × Stream → StreamWriter × Stream
  call (write bs) (sw, s) = ((Writer.write mp bs sw s).0, (Writer.write mp bs sw s).1)
  call close (sw, s) = ((Writer.close mp sw s).0, (Writer.close mp sw s).1)

  abbrev pub calls : List Call → StreamWriter × Stream → StreamWriter × Stream
  calls [] x = x
  calls (k ∷ ks) x = calls ks (call k x)

-- What the protocol documents for a stream: data chunks numbered from `seq`, then one final empty
-- chunk, and nothing after it.
abbrev pub chunks : Text → ℕ → List Call → List (FrameType × StreamChunk)
chunks id seq [] = []
chunks id seq (write bs ∷ ks) =
    (frame_type_stream_data, record { id = id; seq = seq; chunk = bs; final = false })
    ∷ chunks id (seq + 1) ks
chunks id seq (close ∷ ks) =
    (frame_type_stream_end, record { id = id; seq = seq; chunk = []; final = true }) ∷ []

-- The calls of Write before the first Close.
abbrev pub writes : List Call → ℕ
writes [] = 0
writes (write bs ∷ ks) = suc (writes ks)
writes (close ∷ ks) = 0

module _ (mp : Msgpack) (enc : StreamChunk → Bytes) where
  -- The chunk encodes to bytes that fit into a frame.
  abbrev pub Encodes : FrameType × StreamChunk → Type 0
  Encodes (ty, c) = (mp.marshal (chunk c) ≡ ok (enc c)) × Fits (enc c)

  abbrev pub image : List (FrameType × StreamChunk) → Bytes
  image [] = []
  image ((ty, c) ∷ fs) = frame ty (enc c) ++ image fs

module _ (mp : Msgpack) where
  call_closed :
      (k : Call) (sw : StreamWriter) (s : Stream) → sw.closed ≡ true → call mp k (sw, s) ≡ (sw, s)
  unfolding Writer.write Writer.close
  call_closed (write bs) sw s h = rw h
  call_closed close sw s h = rw h

  -- On a closed writer no call writes or changes anything.
  pub calls_closed :
      (ks : List Call) (sw : StreamWriter) (s : Stream)
      → sw.closed ≡ true
      → calls mp ks (sw, s) ≡ (sw, s)
  calls_closed [] sw s h = refl
  calls_closed (k ∷ ks) sw s h =
      ap (λ x. calls mp ks x) (call_closed k sw s h) ∙ calls_closed ks sw s h

  -- Whatever writes fail, a writer that is open and whose number is one of 64 bits counts its calls
  -- of Write up to the first Close, in 64 bits: a chunk that could not be written uses up its
  -- number.
  pub calls-seq :
      (ks : List Call) (sw : StreamWriter) (s : Stream)
      → sw.closed ≡ false
      → sw.seq < 2 ^ 64
      → (calls mp ks (sw, s)).0.seq ≡ (sw.seq + writes ks) % 2 ^ 64
  unfolding Writer.write Writer.close
  calls-seq [] sw s h k = omega arith
  calls-seq (write bs ∷ ks) sw s h k =
      let next : StreamWriter = record {
        request_id = sw.request_id;
        seq = (sw.seq + 1) % 2 ^ 64;
        closed = false;
      } in
      rw h (calls-seq ks next _ refl (omega arith) ∙ omega arith)
  calls-seq (close ∷ ks) sw s h k =
      let next : StreamWriter = record {
        request_id = sw.request_id;
        seq = sw.seq;
        closed = true;
      } in
      rw h (ap (λ x. x.0.seq) (calls_closed ks next _ refl) ∙ omega arith)

  call-write :
      (bs payload : Bytes) (sw : StreamWriter) (s : Stream)
      → sw.closed ≡ false
      → sw.seq + 1 < 2 ^ 64
      → s.faults ≡ []
      → mp.marshal (chunk (record { id = sw.request_id; seq = sw.seq; chunk = bs; final = false }))
        ≡ ok payload
      → Fits payload
      → call mp (write bs) (sw, s) ≡ (
        record sw { seq = sw.seq + 1 },
        record s { output = s.output ++ frame frame_type_stream_data payload },
      )
  unfolding Writer.write
  call-write bs payload sw s h k clean e fits =
      let small : (sw.seq + 1) % 2 ^ 64 ≡ sw.seq + 1 = omega arith in
      rw (h, write_frame-ok mp frame_type_stream_data _ payload s e fits clean, small)

  call-close :
      (payload : Bytes) (sw : StreamWriter) (s : Stream)
      → sw.closed ≡ false
      → s.faults ≡ []
      → mp.marshal (chunk (record { id = sw.request_id; seq = sw.seq; chunk = []; final = true }))
        ≡ ok payload
      → Fits payload
      → call mp close (sw, s) ≡ (
        record sw { closed = true },
        record s { output = s.output ++ frame frame_type_stream_end payload },
      )
  unfolding Writer.close
  call-close payload sw s h clean e fits =
      rw (h, write_frame-ok mp frame_type_stream_end _ payload s e fits clean)

module _ (mp : Msgpack) (enc : StreamChunk → Bytes) where
  -- On a stream whose writes succeed, the calls of an open writer put exactly the documented frames
  -- on the wire: the chunks numbered without a gap, the final frame on the first Close, and nothing
  -- behind it. The chunks encode to bytes that fit, and the numbers stay below 2 ^ 64.
  pub calls-image :
      (ks : List Call) (sw : StreamWriter) (s : Stream)
      → sw.closed ≡ false
      → sw.seq + length ks < 2 ^ 64
      → s.faults ≡ []
      → All (Encodes mp enc) (chunks sw.request_id sw.seq ks)
      → (calls mp ks (sw, s)).1
        ≡ record s { output = s.output ++ image mp enc (chunks sw.request_id sw.seq ks) }
  calls-image [] sw s h k clean all = rw append-nil
  calls-image (write bs ∷ ks) sw s h k clean ((encodes, fits), all) =
      let step = call-write mp bs _ sw s h (omega arith) clean encodes fits in
      ap (λ x. (calls mp ks x).1) step
      ∙ calls-image ks (record sw { seq = sw.seq + 1 }) _ h (omega arith) clean all
      ∙ ap (λ o. record s { output = o }) (append_assoc s.output _ _)
  calls-image (close ∷ ks) sw s h k clean ((encodes, fits), _) =
      ap (λ x. (calls mp ks x).1) (call-close mp _ sw s h clean encodes fits)
      ∙ ap (λ x. x.1) (calls_closed mp ks (record sw { closed = true }) _ refl)
      ∙ ap (λ b. record s { output = s.output ++ b }) (sym (append-nil _))
