-- ===== src/Framework/Context/Tests.antt =====
-- Runs of the reply methods and of a stream writer, and the theorems at concrete inputs.
use quicframe.Prelude.{
  ◌+◌, ◌^◌, ◌<◌, ◌≡◌, refl, List, [], ◌∷◌, none, false, arith, Result, ok, err, new, ok_injective,
  Bool-cases, inl, inr, ltb, length, if◌then◌else◌, ap,
}
use quicframe.Prelude.Text.{Bytes, codes}
use quicframe.Protocol.Codec.{Msgpack}
use quicframe.Protocol.Codec.Emission.{Emits}
use quicframe.Framework.Context.Sending.{Reply, send, error, replies, replies-Emits}
use quicframe.Framework.Context.Streaming.{Call, write, close, calls, chunks, image, calls-image}
use quicframe.Framework.Context.Writer.{StreamWriter}
use quicframe.Samples.{toy, receiving, chunk_bytes}
use quicframe.Samples.Apps.{context}

abbrev twice : List Reply
twice = send 200 (1 ∷ []) ∷ error 500 (b'x' ∷ []) [] ∷ []

-- The encoder when it refuses 1000 bytes or more.
abbrev clip : Result Bytes → Result Bytes
clip (err e) = err e
clip (ok b) = if ltb (length b) 1000 then ok b else err (new (codes "too long"))

abbrev short : Msgpack
short = record toy { marshal = λ v. clip (toy.marshal v) }

clip-bound : (r : Result Bytes) (b : Bytes) → clip r ≡ ok b → 1 + length b < 2 ^ 32
clip-bound (err e) b h = cc
clip-bound (ok c) b h = elim (Bool-cases (ltb (length c) 1000)) [
  | inl small ↦
      let same : c ≡ b = ok_injective (rw small at h) in
      let few : length c < 1000 = ground (arith, small) in omega (arith, few, ap length same)
  | inr large ↦ let bad : err _ ≡ ok b = rw large at h in cc
]

replies-Emits_example : Emits context.stream (replies short twice context).stream
replies-Emits_example = replies-Emits short (λ v b. clip-bound (toy.marshal v) b) twice context

abbrev writer : StreamWriter
writer = record { request_id = b'r' ∷ []; seq = 0; closed = false }

abbrev session : List Call
session = write (7 ∷ []) ∷ write (8 ∷ []) ∷ close ∷ write (9 ∷ []) ∷ []

calls-image_example : (calls toy session (writer, receiving [])).1 ≡ record {
  input = [];
  ending = none;
  output = image toy chunk_bytes (chunks (b'r' ∷ []) 0 session);
  faults = [];
}
calls-image_example =
    calls-image toy chunk_bytes session writer (receiving []) refl (omega arith) refl
      ((refl, omega arith), ((refl, omega arith), ((refl, omega arith), tt)))
