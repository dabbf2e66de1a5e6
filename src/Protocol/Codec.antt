-- ===== src/Protocol/Codec.antt =====
-- protocol/codec.go.
pub mod Words
pub mod Frames
pub mod Reading
pub mod Overflow
pub mod Emission
mod Tests
use quicframe.Prelude.{
  ℕ, ◌+◌, ◌*◌, ◌/◌, ◌%◌, ◌^◌, List, [], ◌∷◌, ◌++◌, Result, ok, err, GoError, new, wrap, length, leb,
  ◌==◌, if◌then◌else◌, ◌||◌, ltb,
}
use quicframe.Prelude.Effects.{wrap_err}
use quicframe.Prelude.Text.{Text, Bytes, codes, decimal}
use quicframe.Protocol.Types.{
  FrameType, Request, Response, StreamChunk, ErrorFrame, Value, error, frame_type_error,
  max_frame_size,
}
use quicframe.Protocol.Stream.{
  Io, bind_result, ◌>>=◌, ◌>>◌, pure, lift, fail, wrapping, wrap_result, write, read_full,
}

-- The third-party msgpack package: `Marshal`, and `Unmarshal` at each type that is decoded.
pub record Msgpack : Type 0 where
  pub marshal : Value → Result Bytes
  pub unmarshal_request : Bytes → Result Request
  pub unmarshal_response : Bytes → Result Response
  pub unmarshal_chunk : Bytes → Result StreamChunk
  pub unmarshal_error : Bytes → Result ErrorFrame
  pub unmarshal_value : Bytes → Result Value

-- `binary.BigEndian.PutUint32` and `Uint32`.
unfoldable pub put_uint32 : ℕ → Bytes
put_uint32 n = (n / 2 ^ 24 % 256) ∷ (n / 2 ^ 16 % 256) ∷ (n / 2 ^ 8 % 256) ∷ (n % 256) ∷ []

unfoldable pub uint32 : Bytes → ℕ
uint32 (a ∷ b ∷ c ∷ d ∷ _) = a * 2 ^ 24 + b * 2 ^ 16 + c * 2 ^ 8 + d
uint32 _ = 0

-- `uint32(1 + len(encoded))`
unfoldable pub frame_length : Bytes → ℕ
frame_length encoded = (1 + length encoded) % 2 ^ 32

check_size : ℕ → Io (Unit {0})
check_size frame_len =
    if ltb max_frame_size frame_len
    then fail (
        new
          (codes "quicframe/protocol: payload too large (" ++ decimal frame_len ++ codes " bytes)"))
    else pure tt

pub write_encoded : FrameType → Bytes → Io (Unit {0})
write_encoded frame_type encoded = do
  check_size (frame_length encoded)
  wrapping (codes "quicframe/protocol: write header: ") (write (put_uint32 (frame_length encoded)))
  wrapping (codes "quicframe/protocol: write type: ") (write (frame_type ∷ []))
  wrapping (codes "quicframe/protocol: write payload: ") (write encoded)

check_length : ℕ → Io (Unit {0})
check_length frame_len =
    if frame_len == 0 || ltb max_frame_size frame_len
    then fail (new (codes "quicframe/protocol: invalid frame length " ++ decimal frame_len))
    else pure tt

-- `FrameType(buf[0]), buf[1:]`. A length of 0 was refused, so the first case does not occur.
split_frame : Bytes → FrameType × Bytes
split_frame [] = (0, [])
split_frame (t ∷ payload) = (t, payload)

unfoldable pub read_frame : Io (FrameType × Bytes)
unfolding check_length split_frame
read_frame = do
  header ← wrapping (codes "quicframe/protocol: read header: ") (read_full 4)
  check_length (uint32 header)
  buf ← wrapping (codes "quicframe/protocol: read body: ") (read_full (uint32 header))
  pure (split_frame buf)

module _ (mp : Msgpack) where
  unfoldable pub write_frame : FrameType → Value → Io (Unit {0})
  unfolding write_encoded check_size
  write_frame frame_type payload = do
    encoded ← wrapping (codes "quicframe/protocol: marshal: ") (lift (mp.marshal payload))
    write_encoded frame_type encoded

  unfoldable pub write_error : Text → ℕ → Text → Bytes → Io (Unit {0})
  write_error request_id code message payload =
      write_frame frame_type_error
        (error (record { id = request_id; code = code; message = message; payload = payload }))

module _ (mp : Msgpack) where
  unfoldable pub decode_request : Bytes → Result Request
  decode_request payload =
      wrap_err (codes "quicframe/protocol: decode request: ") (mp.unmarshal_request payload)

  unfoldable pub decode_response : Bytes → Result Response
  decode_response payload =
      wrap_err (codes "quicframe/protocol: decode response: ") (mp.unmarshal_response payload)

  unfoldable pub decode_stream_chunk : Bytes → Result StreamChunk
  decode_stream_chunk payload =
      wrap_err (codes "quicframe/protocol: decode stream chunk: ") (mp.unmarshal_chunk payload)

  unfoldable pub decode_error : Bytes → Result ErrorFrame
  decode_error payload =
      wrap_err (codes "quicframe/protocol: decode error: ") (mp.unmarshal_error payload)
