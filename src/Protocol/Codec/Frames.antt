-- ===== src/Protocol/Codec/Frames.antt =====
-- What WriteFrame puts on the wire, and that ReadFrame takes it off again.
use quicframe.Prelude.{
  ℕ, ◌+◌, ◌<◌, ◌≤◌, ◌≡◌, refl, [], ◌∷◌, ◌++◌, length, arith, ok, append_assoc, ◌∙◌, sym, ap,
}
use mathlib.Core.List.{append_cancel_left}
use quicframe.Prelude.Text.{Bytes}
use quicframe.Protocol.Types.{FrameType, Value, max_frame_size}
use quicframe.Protocol.Stream.{Stream}
use quicframe.Protocol.Stream.Steps.{
  Appends, write-Appends, wrap_result-Appends, bind_result-Appends, bind_result-ok, wrap_result-ok,
  write-ok, read_full-append,
}
use quicframe.Protocol.Codec.{
  Msgpack, put_uint32, frame_length, check_size, write_encoded, write_frame, read_frame,
  check_length,
}
use quicframe.Protocol.Codec.Words.{length-put_uint32, uint32-put_uint32}

-- The layout that the protocol documents: length of type and payload, type, payload.
abbrev pub frame : FrameType → Bytes → Bytes
frame frame_type payload = put_uint32 (1 + length payload) ++ frame_type ∷ payload

-- A payload that fits into one frame.
abbrev pub Fits : Bytes → Type 0
Fits payload = length payload < max_frame_size

pub frame_length-Fits : (payload : Bytes) → Fits payload → frame_length payload ≡ 1 + length payload
unfolding frame_length
frame_length-Fits payload h = omega arith

check_size-Fits : (n : ℕ) (s : Stream) → n ≤ max_frame_size → check_size n s ≡ (s, ok tt)
unfolding check_size
check_size-Fits n s h = ground arith

pub write_encoded_of_size :
    (ty : FrameType) (payload : Bytes) (n : ℕ) (s : Stream)
    → frame_length payload ≡ n
    → n ≤ max_frame_size
    → s.faults ≡ []
    → write_encoded ty payload s
      ≡ (record s { output = s.output ++ (put_uint32 n ++ ty ∷ payload) }, ok tt)
unfolding write_encoded
write_encoded_of_size ty payload n s size small clean =
    let s1 = record s { output = s.output ++ put_uint32 n } in
    let s2 = record s { output = (s.output ++ put_uint32 n) ++ ty ∷ [] } in
    rw size (
      bind_result-ok _ (check_size-Fits n s small) (
        bind_result-ok _ (wrap_result-ok _ (write-ok (put_uint32 n) s clean)) (
          bind_result-ok _ (wrap_result-ok _ (write-ok (ty ∷ []) s1 clean)) (
            rw (
              write-ok payload s2 clean,
              append_assoc (s.output ++ put_uint32 n) (ty ∷ []) payload,
              append_assoc s.output (put_uint32 n) (ty ∷ payload),
            )))))

check_length-Fits :
    (n : ℕ) (s : Stream) → 0 < n → n ≤ max_frame_size → check_length n s ≡ (s, ok tt)
unfolding check_length
check_length-Fits n s h k = ground arith

-- A frame at the front of the input is read whole, and nothing behind it is touched.
pub read_frame-frame :
    (ty : FrameType) (payload rest : Bytes) (s : Stream)
    → Fits payload
    → s.input ≡ frame ty payload ++ rest
    → read_frame s ≡ (record s { input = rest }, ok (ty, payload))
unfolding read_frame
read_frame-frame ty payload rest s fits e =
    let n = 1 + length payload in
    bind_result-ok _
      (wrap_result-ok _ (
        read_full-append 4 (put_uint32 n) (ty ∷ payload ++ rest) s
          (e ∙ append_assoc (put_uint32 n) (ty ∷ payload) rest) (sym (length-put_uint32 n))))
      (rw (uint32-put_uint32 n (omega arith)) (
        bind_result-ok _ (check_length-Fits n _ (omega arith) (omega arith)) (
          bind_result-ok _
            (wrap_result-ok _ (read_full-append n (ty ∷ payload) rest _ refl (omega arith))) refl)))

pub write_frame-encoded :
    (mp : Msgpack) (ty : FrameType) (v : Value) (payload : Bytes) (s : Stream)
    → mp.marshal v ≡ ok payload
    → write_frame mp ty v s ≡ write_encoded ty payload s
unfolding write_frame
write_frame-encoded mp ty v payload s encoded =
    bind_result-ok _ (wrap_result-ok _ (ap (λ r. (s, r)) encoded)) refl

pub write_frame-ok :
    (mp : Msgpack) (ty : FrameType) (v : Value) (payload : Bytes) (s : Stream)
    → mp.marshal v ≡ ok payload
    → Fits payload
    → s.faults ≡ []
    → write_frame mp ty v s ≡ (record s { output = s.output ++ frame ty payload }, ok tt)
write_frame-ok mp ty v payload s encoded fits clean =
    rw (write_frame-encoded mp ty v payload s encoded) (
      write_encoded_of_size ty payload (1 + length payload) s (frame_length-Fits payload fits)
        (omega arith) clean)

-- What was written as one frame is read back as that frame: if the payload encodes to bytes that
-- fit and no write fails, WriteFrame succeeds, and a reader whose input is what WriteFrame added
-- to the output, followed by anything, gets the type and those bytes and keeps the rest.
pub read_frame-write_frame :
    (mp : Msgpack) (ty : FrameType) (v : Value) (payload rest : Bytes) (w r : Stream)
    → mp.marshal v ≡ ok payload
    → Fits payload
    → w.faults ≡ []
    → w.output ++ r.input ≡ (write_frame mp ty v w).0.output ++ rest
    → ((write_frame mp ty v w).1 ≡ ok tt)
      × (read_frame r ≡ (record r { input = rest }, ok (ty, payload)))
read_frame-write_frame mp ty v payload rest w r encoded fits clean received =
    let written = write_frame-ok mp ty v payload w encoded fits clean in
    let arrived : r.input ≡ frame ty payload ++ rest = append_cancel_left w.output _ _ (
      received
      ∙ ap (λ x. x.0.output ++ rest) written
      ∙ append_assoc w.output (frame ty payload) rest) in
    (ap (λ x. x.1) written, read_frame-frame ty payload rest r fits arrived)

write_encoded-Appends :
    (ty : FrameType) (payload : Bytes) (s : Stream)
    → Fits payload
    → Appends s (frame ty payload) (write_encoded ty payload s)
unfolding write_encoded
write_encoded-Appends ty payload s fits =
    let n = 1 + length payload in
    rw (frame_length-Fits payload fits, check_size-Fits n s (omega arith))
      (bind_result-Appends _ _ (wrap_result-Appends _ _ (write-Appends (put_uint32 n) s)) λ t.
        bind_result-Appends _ _ (wrap_result-Appends _ _ (write-Appends (ty ∷ []) t))
          λ u. wrap_result-Appends _ _ (write-Appends payload u))

-- Whatever writes fail, WriteFrame adds a first part of the frame to the output and nothing else,
-- reads nothing, and reports success only if the whole frame was written; the payload is one that
-- encodes and fits.
pub write_frame-Appends :
    (mp : Msgpack) (ty : FrameType) (v : Value) (payload : Bytes) (s : Stream)
    → mp.marshal v ≡ ok payload
    → Fits payload
    → Appends s (frame ty payload) (write_frame mp ty v s)
write_frame-Appends mp ty v payload s encoded fits =
    rw (write_frame-encoded mp ty v payload s encoded) (write_encoded-Appends ty payload s fits)
