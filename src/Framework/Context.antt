-- ===== src/Framework/Context.antt =====
-- framework/context.go: the state of one request and response cycle, and its methods. A method
-- returns the new context. The underlying context.Context is not modelled.
pub mod Opening
pub mod Writer
pub mod Sending
pub mod Results
pub mod Streaming
pub mod Access
mod Tests
use quicframe.Prelude.{
  ℕ, Bool, true, false, List, [], ◌∷◌, ◌++◌, Option, none, some, Result, ok, err, GoError, new,
  wrap, if◌then◌else◌,
}
use quicframe.Prelude.Text.{Text, Bytes, codes}
use quicframe.Prelude.Dict
use quicframe.Protocol.Types.{
  Request, Response, Value, nil, table, response, frame_type_response, status_no_content,
}
use quicframe.Protocol.Stream.{Stream, Io}
use quicframe.Protocol.Codec.{Msgpack, write_frame, write_error}

-- An `*x509.Certificate`, as far as it is looked into.
pub record Certificate : Type 0 where
  pub common_name : Text

-- `remoteAddrProvider`: `remote_addr` is the text of the address, `none` for nil; `is_native` tells
-- a QUIC connection from a WebTransport session.
pub record Peer : Type 0 where
  pub remote_addr : Option Text
  pub peer_certificates : List Certificate
  pub is_native : Bool

pub record Context : Type 0 where
  pub request : Request
  pub conn : Peer
  pub stream : Stream
  pub params : List (Text × Text)
  pub query_params : List (Text × List Text)
  pub locals : List (Text × Value)
  pub sent : Bool
  pub res_headers : List (Text × Text)

-- A method with an error result.
abbrev pub Act : Type 0 → Type 0
Act A = Context → Context × Result A

unfoldable pub new_context : Request → Peer → Stream → Context
new_context req conn stream = record {
  request = req;
  conn = conn;
  stream = stream;
  params = [];
  query_params = [];
  locals = [];
  sent = false;
  res_headers = [];
}

abbrev or_empty : Option Text → Text
or_empty none = []
or_empty (some v) = v

abbrev first_value : Option (List Text) → Text
first_value (some (v ∷ _)) = v
first_value _ = []

unfoldable pub param : Text → Context → Text
param key c = or_empty (Dict.lookup key c.params)

-- `url.Values.Get`: the first value of the key.
unfoldable pub query : Text → Context → Text
query key c = first_value (Dict.lookup key c.query_params)

unfoldable pub get_header : Text → Context → Text
get_header key c = or_empty (Dict.lookup key c.request.headers)

unfoldable pub header : Text → Text → Context → Context
header key value c = record c { res_headers = Dict.insert key value c.res_headers }

unfoldable pub set : Text → Value → Context → Context
set key value c = record c { locals = Dict.insert key value c.locals }

unfoldable pub get : Text → Context → Option Value
get key c = Dict.lookup key c.locals

unfoldable pub set_params : List (Text × Text) → Context → Context
set_params params c = record c { params = params }

unfoldable pub set_query_params : List (Text × List Text) → Context → Context
set_query_params params c = record c { query_params = params }

-- A computation on the stream that the context shares.
abbrev pub on_stream : {A : Type 0} → Io A → Act A
on_stream m c = (record c { stream = (m c.stream).0 }, (m c.stream).1)

abbrev pub already_sent : GoError
already_sent = new (codes "quicframe: response already sent")

unfoldable pub final_headers : List (Text × Text) → List (Text × Text) → List (Text × Text)
final_headers pending headers = Dict.merge (Dict.merge [] pending) headers

-- What `Error` sends as data: the first optional argument, unless it is nil.
abbrev pub error_payload : Msgpack → List Value → Result Bytes
error_payload mp [] = ok []
error_payload mp (nil ∷ _) = ok []
error_payload mp (v ∷ _) = mp.marshal v

-- `Error` once it has won the right to reply.
reply_error : Msgpack → ℕ → Text → Result Bytes → Act (Unit {0})
reply_error mp code message (err e) c = (c, err (wrap (codes "quicframe: Error: marshal data: ") e))
reply_error mp code message (ok payload) c =
    on_stream (write_error mp c.request.id code message payload) c

-- `Bind` on a body that is not empty.
bind_result : Result Value → Result (Option Value)
bind_result (ok v) = ok (some v)
bind_result (err e) = err (wrap (codes "quicframe: bind: ") e)

bind_body : Msgpack → Bytes → Result (Option Value)
bind_body mp [] = ok none
bind_body mp (b ∷ bs) = bind_result (mp.unmarshal_value (b ∷ bs))

module _ (mp : Msgpack) where
  -- The decoded value, `none` where the target is left as it was.
  unfoldable pub bind : Context → Result (Option Value)
  unfolding bind_body bind_result
  bind c = bind_body mp c.request.body

  unfoldable pub write_response : ℕ → List (Text × Text) → Bytes → Bool → Act (Unit {0})
  write_response status headers body stream c =
      if c.sent
      then (c, err already_sent)
      else on_stream
          (write_frame mp frame_type_response (
            response (record {
              id = c.request.id;
              status = status;
              headers = final_headers c.res_headers headers;
              body = body;
              stream = stream;
            })))
          (record c { sent = true })

  unfoldable pub send : ℕ → Bytes → Act (Unit {0})
  unfolding write_response
  send status body = write_response status [] body false

  abbrev content_type : List (Text × Text)
  content_type = (codes "content-type", codes "application/x-msgpack") ∷ []

  -- `MsgPack` with the encoded value.
  send_encoded : ℕ → Result Bytes → Act (Unit {0})
  send_encoded status (err e) c = (c, err (wrap (codes "quicframe: MsgPack: ") e))
  send_encoded status (ok body) c = write_response status content_type body false c

  unfoldable pub msgpack : ℕ → Value → Act (Unit {0})
  unfolding send_encoded write_response
  msgpack status v = send_encoded status (mp.marshal v)

  unfoldable pub no_content : Act (Unit {0})
  unfolding write_response
  no_content = write_response status_no_content [] [] false

  -- `Error(code, message, data...)`: silent when a reply was sent before.
  unfoldable pub error : ℕ → Text → List Value → Act (Unit {0})
  unfolding reply_error
  error code message args c =
      if c.sent
      then (c, ok tt)
      else reply_error mp code message (error_payload mp args) (record c { sent = true })
