-- ===== src/Protocol/Codec/Overflow.antt =====
-- The conversion `uint32(1 + len(encoded))` of WriteFrame, at payloads of 4 GiB and more.
use quicframe.Prelude.{
  ℕ, ◌+◌, ◌<◌, ◌^◌, ◌≡◌, [], ◌∷◌, ◌++◌, length, take, drop, arith, ok, sym, ap, ◌∙◌, append_assoc,
  take-append-drop, length-take,
}
use mathlib.Core.List.{append_cancel_left}
use quicframe.Prelude.Text.{Bytes}
use quicframe.Protocol.Types.{FrameType, Value, max_frame_size}
use quicframe.Protocol.Stream.{Stream}
use quicframe.Protocol.Codec.{Msgpack, put_uint32, frame_length, write_frame, read_frame}
use quicframe.Protocol.Codec.Frames.{
  frame, write_encoded_of_size, write_frame-encoded, read_frame-frame,
}

frame_length_wraps :
    (payload : Bytes) (r : ℕ)
    → length payload ≡ 2 ^ 32 + r
    → r < max_frame_size
    → frame_length payload ≡ 1 + r
unfolding frame_length
frame_length_wraps payload r h k = omega arith

split_layout :
    (ty : FrameType) (payload rest : Bytes) (n : ℕ)
    → length (take n payload) ≡ n
    → (put_uint32 (1 + n) ++ ty ∷ payload) ++ rest
      ≡ frame ty (take n payload) ++ (drop n payload ++ rest)
split_layout ty payload rest n h = rw h (
    simp append_assoc (
      ap (λ b. put_uint32 (1 + n) ++ ty ∷ b)
        (ap (λ b. b ++ rest) (sym (take-append-drop n payload)) ∙ append_assoc _ _ rest)))

-- A payload that encodes to 2 ^ 32 + r bytes with r below 64 MiB is not refused as too large: the
-- length wraps around, WriteFrame reports success, and the reader gets a frame of the first r
-- bytes and then meets the other 2 ^ 32 bytes as the start of the next frame.
pub write_frame_wraps :
    (mp : Msgpack) (ty : FrameType) (v : Value) (payload rest : Bytes) (n : ℕ) (w r : Stream)
    → mp.marshal v ≡ ok payload
    → length payload ≡ 2 ^ 32 + n
    → n < max_frame_size
    → w.faults ≡ []
    → w.output ++ r.input ≡ (write_frame mp ty v w).0.output ++ rest
    → ((write_frame mp ty v w).1 ≡ ok tt)
      × (read_frame r ≡ (record r { input = drop n payload ++ rest }, ok (ty, take n payload)))
write_frame_wraps mp ty v payload rest n w r encoded long small clean received =
    let written =
      write_frame-encoded mp ty v payload w encoded
      ∙ write_encoded_of_size ty payload (1 + n) w (frame_length_wraps payload n long small)
          (omega arith) clean in
    let head = length-take n payload (omega arith) in
    let arrived =
      append_cancel_left w.output _ _
        (received ∙ ap (λ x. x.0.output ++ rest) written ∙ append_assoc w.output _ rest) in
    (
      ap (λ x. x.1) written,
      read_frame-frame ty (take n payload) (drop n payload ++ rest) r (omega arith)
          (arrived ∙ split_layout ty payload rest n head),
    )
