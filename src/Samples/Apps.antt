-- ===== src/Samples/Apps.antt =====
-- A small app, a request and a peer for tests and examples. The application's state is a number.
use quicframe.Prelude.{ℕ, [], ◌∷◌, none, ok, true, false}
use quicframe.Prelude.Text.{Text}
use quicframe.Protocol.Types.{Request}
use quicframe.Framework.Context
use quicframe.Framework.Context.{Context, Peer}
use quicframe.Framework.Handler.{HandlerFunc, perform}
use quicframe.Framework.App
use quicframe.Framework.App.{App, Deps}
use quicframe.Samples.{toy, receiving}

abbrev pub deps : Deps
deps = record {
  msgpack = toy;
  parse_url = λ p. ok (record { path = p; query = [] });
  unicode = λ s. s;
}

abbrev pub peer : Peer
peer = record {
  remote_addr = none;
  peer_certificates = record { common_name = b'n' ∷ [] } ∷ [];
  is_native = true;
}

-- "GET", "/u/7" and "/u/:id" byte by byte.
abbrev pub get_text : Text
get_text = b'G' ∷ b'E' ∷ b'T' ∷ []

abbrev pub path_text : Text
path_text = b'/' ∷ b'u' ∷ b'/' ∷ b'7' ∷ []

abbrev pub pattern_text : Text
pattern_text = b'/' ∷ b'u' ∷ b'/' ∷ b':' ∷ b'i' ∷ []

abbrev pub asked : Request
asked = record {
  id = b'r' ∷ [];
  method = get_text;
  path = path_text;
  headers = [];
  body = [];
  stream = false;
}

abbrev pub context : Context
context = record {
  request = asked;
  conn = peer;
  stream = receiving [];
  params = [];
  query_params = [];
  locals = [];
  sent = false;
  res_headers = [];
}

abbrev pub hello : HandlerFunc ℕ
hello = perform (Context.send toy 200 (1 ∷ 2 ∷ []))

-- An app with the one route "GET /u/:i".
abbrev pub empty_app : App ℕ
empty_app = App.new deps

abbrev pub serving : HandlerFunc ℕ → App ℕ
serving h = App.add_route deps get_text pattern_text [] h empty_app
