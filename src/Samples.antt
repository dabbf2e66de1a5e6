-- ===== src/Samples.antt =====
-- A small concrete encoder in the place of msgpack, and streams, for tests and examples. It keeps
-- texts and numbers, and leaves headers and flags out.
pub mod Apps
pub mod Disks
use quicframe.Prelude.{
  ℕ, List, [], ◌∷◌, ◌++◌, Option, none, Result, ok, err, new, length, take, drop, false, zero, suc,
  ◌≡◌, refl, ap,
}
use quicframe.Prelude.Text.{Text, Bytes, codes}
use quicframe.Protocol.Types.{
  Value, nil, bytes, text, request, response, chunk, error, ping, Request, Response, StreamChunk,
  ErrorFrame,
}
use quicframe.Protocol.Stream.{Stream}
use quicframe.Protocol.Codec.{Msgpack}

abbrev pack : Text → Bytes
pack t = length t ∷ t

abbrev head : Bytes → Text
head [] = []
head (n ∷ bs) = take n bs

abbrev tail : Bytes → Bytes
tail [] = []
tail (n ∷ bs) = drop n bs

abbrev to_request : Bytes → Result Request
to_request [] = err (new (codes "EOF"))
to_request bs = ok (record {
  id = head bs;
  method = head (tail bs);
  path = head (tail (tail bs));
  headers = [];
  body = head (tail (tail (tail bs)));
  stream = false;
})

abbrev to_response : Bytes → Result Response
to_response [] = err (new (codes "EOF"))
to_response (n ∷ bs) =
    ok (record { id = head bs; status = n; headers = []; body = head (tail bs); stream = false })

abbrev to_error : Bytes → Result ErrorFrame
to_error [] = err (new (codes "EOF"))
to_error (n ∷ bs) =
    ok
      (record { id = head bs; code = n; message = head (tail bs); payload = head (tail (tail bs)) })

abbrev to_chunk : Bytes → Result StreamChunk
to_chunk [] = err (new (codes "EOF"))
to_chunk (n ∷ bs) = ok (record { id = head bs; seq = n; chunk = head (tail bs); final = false })

abbrev encode : Value → Result Bytes
encode nil = ok []
encode (bytes b) = ok b
encode (text t) = ok (pack t)
encode (request r) = ok (pack r.id ++ (pack r.method ++ (pack r.path ++ pack r.body)))
encode (response r) = ok (r.status ∷ pack r.id ++ pack r.body)
encode (error e) = ok (e.code ∷ pack e.id ++ (pack e.message ++ pack e.payload))
encode (chunk c) = ok (c.seq ∷ pack c.id ++ pack c.chunk)
encode (ping p) = ok (p.timestamp ∷ [])
encode _ = err (new (codes "unsupported type"))

abbrev pub toy : Msgpack
toy = record {
  marshal = encode;
  unmarshal_request = to_request;
  unmarshal_response = to_response;
  unmarshal_chunk = to_chunk;
  unmarshal_error = to_error;
  unmarshal_value = λ b. ok (bytes b);
}

-- The bytes of an error frame and of a response under this encoder.
abbrev pub error_bytes : ℕ → Text → Text → Bytes
error_bytes code id message = code ∷ pack id ++ (pack message ++ pack [])

abbrev pub response_bytes : ℕ → Text → Bytes → Bytes
response_bytes status id body = status ∷ pack id ++ pack body

-- A long run of zeros.
pub zeros : ℕ → Bytes
zeros zero = []
zeros (suc n) = 0 ∷ zeros n

pub length-zeros : (n : ℕ) → length (zeros n) ≡ n
unfolding zeros
length-zeros zero = refl
length-zeros (suc n) = ap suc (length-zeros n)

-- The bytes of a chunk under this encoder.
abbrev pub chunk_bytes : StreamChunk → Bytes
chunk_bytes c = c.seq ∷ pack c.id ++ pack c.chunk

-- A stream on which the peer sent `input`, nothing was written, and no write fails.
abbrev pub receiving : Bytes → Stream
receiving input = record { input = input; ending = none; output = []; faults = [] }
