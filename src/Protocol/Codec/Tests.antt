-- ===== src/Protocol/Codec/Tests.antt =====
-- Runs of the codec, and its theorems at concrete inputs.
use quicframe.Prelude.{
  ℕ, ◌+◌, ◌^◌, ◌≡◌, refl, [], ◌∷◌, ◌++◌, take, drop, arith, ok, ap, none, some, sym, append-nil,
}
use quicframe.Prelude.Text.{Bytes, codes}
use quicframe.Protocol.Types.{bytes}
use quicframe.Protocol.Stream.{Stream, write, read_full}
use quicframe.Protocol.Stream.Steps.{Appends}
use quicframe.Protocol.Codec.{write_frame, read_frame, put_uint32, uint32, frame_length}
use quicframe.Protocol.Codec.Frames.{frame, Fits, read_frame-write_frame, write_frame-Appends}
use quicframe.Protocol.Codec.Reading.{read_frame_sound}
use quicframe.Protocol.Codec.Overflow.{write_frame_wraps}
use quicframe.Samples.{toy, receiving, zeros, length-zeros}

abbrev framed : Bytes
framed = 0 ∷ 0 ∷ 0 ∷ 3 ∷ 1 ∷ 7 ∷ 8 ∷ []

written : (write_frame toy 1 (bytes (7 ∷ 8 ∷ [])) (receiving [])).0.output ≡ framed
unfolding write_frame write put_uint32 frame_length
written = refl

received : read_frame (receiving (framed ++ 9 ∷ [])) ≡ (receiving (9 ∷ []), ok (1, 7 ∷ 8 ∷ []))
unfolding read_frame read_full uint32
received = refl

read_frame-write_frame_example :
    ((write_frame toy 1 (bytes (7 ∷ 8 ∷ [])) (receiving [])).1 ≡ ok tt)
    × (read_frame (receiving (framed ++ 9 ∷ [])) ≡ (receiving (9 ∷ []), ok (1, 7 ∷ 8 ∷ [])))
read_frame-write_frame_example =
    read_frame-write_frame toy 1 (bytes (7 ∷ 8 ∷ [])) (7 ∷ 8 ∷ []) (9 ∷ []) (receiving [])
      (receiving (framed ++ 9 ∷ [])) refl (omega arith) refl (ap (λ b. b ++ 9 ∷ []) (sym written))

abbrev failing : Stream
failing = record {
  input = [];
  ending = none;
  output = 5 ∷ [];
  faults = none ∷ some (record { count = 0; reason = codes "reset" }) ∷ [];
}

write_frame-Appends_example :
    Appends failing (frame 1 (7 ∷ 8 ∷ [])) (write_frame toy 1 (bytes (7 ∷ 8 ∷ [])) failing)
write_frame-Appends_example =
    write_frame-Appends toy 1 (bytes (7 ∷ 8 ∷ [])) (7 ∷ 8 ∷ []) failing refl (omega arith)

read_frame_sound_example :
    (framed ++ 9 ∷ [] ≡ frame 1 (7 ∷ 8 ∷ []) ++ 9 ∷ [])
    × Fits (7 ∷ 8 ∷ [])
    × (◌≡◌ {A = Bytes} [] [])
read_frame_sound_example =
    read_frame_sound (receiving (framed ++ 9 ∷ [])) (receiving (9 ∷ [])) 1 (7 ∷ 8 ∷ [])
      (omega arith) received

abbrev huge : ℕ
huge = 2 ^ 32 + 2

abbrev overflowing : Stream
overflowing = receiving ((write_frame toy 1 (bytes (zeros huge)) (receiving [])).0.output)

write_frame_wraps_example :
    ((write_frame toy 1 (bytes (zeros huge)) (receiving [])).1 ≡ ok tt)
    × (read_frame overflowing
        ≡ (receiving (drop 2 (zeros huge) ++ []), ok (1, take 2 (zeros huge))))
write_frame_wraps_example =
    write_frame_wraps toy 1 (bytes (zeros huge)) (zeros huge) [] 2 (receiving []) overflowing refl
      (length-zeros huge) (omega arith) refl (sym (append-nil _))
