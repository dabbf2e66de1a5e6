-- ===== src/Protocol/Codec/Emission.antt =====
-- One call of WriteFrame adds at most one frame image, whatever fails.
use quicframe.Prelude.{
  ℕ, ◌+◌, ◌^◌, ◌≡◌, ◌<◌, ◌⊎◌, length, refl, new, arith, [], ◌∷◌, ◌++◌, ok, err, ap, sym, ◌∙◌,
  append-nil, inl, inr, Bool-cases, Result-cases, GoError, wrap, ltb,
}
use quicframe.Prelude.Text.{Bytes, codes, decimal}
use quicframe.Protocol.Types.{
  FrameType, Value, max_frame_size, frame_type_response, frame_type_error,
}
use quicframe.Protocol.Stream.{Stream}
use quicframe.Protocol.Stream.Steps.{
  Appends, write-Appends, wrap_result-Appends, bind_result-Appends, bind_result-err,
  wrap_result-err,
}
use quicframe.Protocol.Codec.{
  Msgpack, put_uint32, frame_length, check_size, write_encoded, write_frame,
}
use quicframe.Protocol.Codec.Frames.{frame, Fits, write_frame-encoded}

-- No encoded value is as long as 4 GiB, so that the length of its frame fits into 32 bits.
abbrev pub IsBounded : Msgpack → Type 0
IsBounded mp =
    (v : Value) (payload : Bytes) → mp.marshal v ≡ ok payload → 1 + length payload < 2 ^ 32

-- The types of the frames that reply to a request.
abbrev pub IsReply : FrameType → Type 0
IsReply ty = (ty ≡ frame_type_response) ⊎ (ty ≡ frame_type_error)

-- From `s` to `t` a first part of one reply frame was written, which may be none of it, and nothing
-- was read. The frame is one of the documented layout, with its true length, within the limit.
pub record Emits (s t : Stream) : Type 0 where
  pub frame_type : FrameType
  pub reply : IsReply frame_type
  pub payload : Bytes
  pub fits : Fits payload
  pub done : Bytes
  pub left : Bytes
  pub split : done ++ left ≡ frame frame_type payload
  pub output : t.output ≡ s.output ++ done
  pub input : t.input ≡ s.input

pub Emits-nothing : (s : Stream) → Emits s s
Emits-nothing s = record {
  frame_type = frame_type_response;
  reply = inl refl;
  payload = [];
  fits = omega arith;
  done = [];
  left = frame frame_type_response [];
  split = refl;
  output = sym (append-nil s.output);
  input = refl;
}

abbrev wire : FrameType → Bytes → Bytes
wire ty payload = put_uint32 (frame_length payload) ++ ty ∷ payload

frame_length-bounded :
    (payload : Bytes) → 1 + length payload < 2 ^ 32 → frame_length payload ≡ 1 + length payload
unfolding frame_length
frame_length-bounded payload h = omega arith

write_encoded-Emits :
    (ty : FrameType) (payload : Bytes) (s : Stream)
    → IsReply ty
    → 1 + length payload < 2 ^ 32
    → Emits s (write_encoded ty payload s).0
unfolding write_encoded check_size
write_encoded-Emits ty payload s reply bounded =
    let size : frame_length payload ≡ 1 + length payload = frame_length-bounded payload bounded in
    elim (Bool-cases (ltb max_frame_size (frame_length payload))) [
      | inl large ↦ rw large (Emits-nothing s)
      | inr small ↦
          let h : Appends s (wire ty payload) (write_encoded ty payload s) = rw small (
            bind_result-Appends _ _
              (wrap_result-Appends _ _ (write-Appends (put_uint32 (frame_length payload)) s))
              λ t.
                bind_result-Appends _ _ (wrap_result-Appends _ _ (write-Appends (ty ∷ []) t))
                  λ u. wrap_result-Appends _ _ (write-Appends payload u)) in
          record {
            frame_type = ty;
            reply = reply;
            payload = payload;
            fits = ground (arith, small, size);
            done = h.done;
            left = h.left;
            split = h.split ∙ ap (λ n. put_uint32 n ++ ty ∷ payload) size;
            output = h.output;
            input = h.input;
          }
    ]

-- A payload that does not encode leaves the stream as it is, and the error is wrapped.
pub write_frame-err :
    (mp : Msgpack) (ty : FrameType) (v : Value) (s : Stream) {e : GoError}
    → mp.marshal v ≡ err e
    → write_frame mp ty v s ≡ (s, err (wrap (codes "quicframe/protocol: marshal: ") e))
unfolding write_frame
write_frame-err mp ty v s h = bind_result-err _ (wrap_result-err _ (ap (λ r. (s, r)) h))

pub write_frame-Emits :
    (mp : Msgpack) (ty : FrameType) (v : Value) (s : Stream)
    → IsBounded mp
    → IsReply ty
    → Emits s (write_frame mp ty v s).0
write_frame-Emits mp ty v s bounded reply = elim (Result-cases (mp.marshal v)) [
  | inl (payload, e) ↦
      rw (write_frame-encoded mp ty v payload s e)
        (write_encoded-Emits ty payload s reply (bounded v payload e))
  | inr (e, h) ↦ rw (write_frame-err mp ty v s h) (Emits-nothing s)
]

check_size-oversized :
    (n : ℕ) (s : Stream)
    → max_frame_size < n
    → check_size n s ≡ (
      s,
      err (new (codes "quicframe/protocol: payload too large (" ++ decimal n ++ codes " bytes)")),
    )
unfolding check_size
check_size-oversized n s h = ground arith

-- A payload above the limit is refused before anything is written.
pub write_frame-oversized :
    (mp : Msgpack) (ty : FrameType) (v : Value) (payload : Bytes) (s : Stream)
    → mp.marshal v ≡ ok payload
    → max_frame_size < frame_length payload
    → write_frame mp ty v s ≡ (
      s,
      err (
          new (
            codes "quicframe/protocol: payload too large ("
            ++ decimal (frame_length payload)
            ++ codes " bytes)")),
    )
unfolding write_encoded
write_frame-oversized mp ty v payload s encodes large =
    write_frame-encoded mp ty v payload s encodes
    ∙ bind_result-err _ (check_size-oversized (frame_length payload) s large)
