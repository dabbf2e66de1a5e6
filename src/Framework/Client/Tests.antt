-- ===== src/Framework/Client/Tests.antt =====
-- The client's theorems at concrete inputs, and a whole exchange.
use quicframe.Prelude.{◌≡◌, refl, [], ◌∷◌, ◌++◌, new, arith, sym}
use quicframe.Prelude.Text.{
  Bytes, codes, decimal, to_upper, text_eq, trim, trim_left, trim_right, split,
}
use quicframe.Prelude.Dict
use quicframe.Protocol.Types.{nil, frame_type_error, frame_type_request, frame_type_response}
use quicframe.Protocol.Stream.{Stream, write, read_full}
use quicframe.Protocol.Codec.{
  put_uint32, uint32, frame_length, write_frame, read_frame, decode_request,
}
use quicframe.Protocol.Codec.Frames.{frame}
use quicframe.Framework.Context
use quicframe.Framework.Path.{split_path, parse_pattern, parse_segment, match_segments}
use quicframe.Framework.Handler.{apply_middleware}
use quicframe.Framework.Router
use quicframe.Framework.App
use quicframe.Framework.App.{dispatch_stream}
use quicframe.Framework.App.Sending.{sent_response}
use quicframe.Framework.Client
use quicframe.Framework.Client.{new_request, request_body, request_with_headers, failed, panicked}
use quicframe.Framework.Client.Exchange.{request_with_headers-dispatch_stream}
use quicframe.Prelude.{ℕ, List, Result, err, ok, none}
use quicframe.Prelude.Text.{Text}
use quicframe.Framework.Client.Connection.{Client}
use quicframe.Samples.{toy, receiving, error_bytes}
use quicframe.Samples.Apps.{deps, peer, hello, serving, get_text, path_text}

-- The request with the id "req-7".
abbrev asked_bytes : Bytes
asked_bytes = 5 ∷ b'r' ∷ b'e' ∷ b'q' ∷ b'-' ∷ b'7' ∷ 3 ∷ get_text ++ (4 ∷ path_text ++ 0 ∷ [])

abbrev answered_bytes : Bytes
answered_bytes = 200 ∷ 5 ∷ b'r' ∷ b'e' ∷ b'q' ∷ b'-' ∷ b'7' ∷ 2 ∷ 1 ∷ 2 ∷ []

abbrev client_side : Stream
client_side = receiving (frame frame_type_response answered_bytes)

abbrev server_side : Stream
server_side = receiving (frame frame_type_request asked_bytes)

exchange : Unit {0}
unfolding App.new App.add_route Router.add Router.new_router Router.match to_upper text_eq trim
    trim_left trim_right split split_path parse_pattern parse_segment match_segments Dict.insert
    apply_middleware App.routed App.request_url new_request request_body decimal codes
exchange = tt

client_written :
    (request_with_headers toy 7 get_text path_text [] nil client_side).0.output
    ≡ frame frame_type_request asked_bytes
unfolding exchange request_with_headers write_frame write read_frame read_full put_uint32 uint32
    frame_length
client_written = refl

server_written :
    (dispatch_stream deps (serving hello) peer server_side 0).stream.output
    ≡ frame frame_type_response answered_bytes
unfolding exchange dispatch_stream write_frame write read_frame read_full put_uint32 uint32
    frame_length decode_request Context.new_context Context.set_params Context.set_query_params
    Context.send Context.final_headers Dict.merge
server_written = refl

request_with_headers-dispatch_stream_example :
    (request_with_headers toy 7 get_text path_text [] nil client_side).1
    ≡ Client.response (sent_response (new_request 7 get_text path_text [] []).id 200 (1 ∷ 2 ∷ []))
unfolding exchange Context.final_headers Dict.merge
request_with_headers-dispatch_stream_example =
    request_with_headers-dispatch_stream deps (serving hello) peer 0 7 get_text path_text [] nil []
      asked_bytes (1 ∷ 2 ∷ []) answered_bytes 200 client_side server_side refl refl refl
      (omega arith) refl refl (omega arith) refl refl refl refl refl (sym client_written)
      (sym server_written)

abbrev refusing : Stream
refusing = receiving (frame frame_type_error (error_bytes 403 [] (b'n' ∷ b'o' ∷ [])) ++ [])

-- A certificate file that cannot be read at first and changes once.
abbrev readings : List (Result Text)
readings = err (new (codes "EOF")) ∷ ok (b'a' ∷ []) ∷ ok (b'a' ∷ []) ∷ ok (b'f' ∷ []) ∷ []

abbrev dialed_before : Client ℕ
dialed_before = record { conn = 1; quic_cfg = none; hashes = [] }
