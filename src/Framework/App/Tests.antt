-- ===== src/Framework/App/Tests.antt =====
-- Runs of the dispatcher, and its theorems at concrete inputs.
use quicframe.Prelude.{ℕ, ◌≡◌, refl, [], ◌∷◌, ◌++◌, new, wrap, suc}
use quicframe.Prelude.Text.{Text, codes, to_upper, text_eq, trim, trim_left, trim_right, split}
use quicframe.Prelude.Dict
use quicframe.Protocol.Types.{table, frame_type_ping, frame_type_request}
use quicframe.Protocol.Stream.{Stream}
use quicframe.Protocol.Codec.Frames.{frame}
use quicframe.Framework.Context
use quicframe.Framework.Context.{Context}
use quicframe.Framework.Path.{split_path, parse_pattern, parse_segment, match_segments}
use quicframe.Framework.Handler.{HandlerFunc, MiddlewareFunc, perform, apply_middleware}
use quicframe.Framework.Router
use quicframe.Framework.Router.{Route, Router, match}
use quicframe.Framework.Router.Choice.{Choice, match-Choice}
use quicframe.Framework.App
use quicframe.Framework.App.{
  App, Served, done, dispatch_stream, handle_request, routed, handler_failed, decode_failed,
}
use quicframe.Framework.App.Groups
use quicframe.Framework.App.Groups.{routed-handle}
use quicframe.Framework.App.Silence.{handle_request-unencodable}
use quicframe.Samples.{toy, receiving}
use quicframe.Samples.Apps.{deps, peer, asked, hello, serving, empty_app, get_text, path_text}

routing : Unit {0}
unfolding App.new App.add_route Router.add Router.new_router match to_upper text_eq trim trim_left
    trim_right split split_path parse_pattern parse_segment match_segments Dict.insert
    apply_middleware
routing = tt

routed_test : routed deps (serving hello) asked ≡ (hello, (b'i' ∷ [], b'7' ∷ []) ∷ [])
unfolding routing App.routed App.request_url
routed_test = refl

match-Choice_example :
    Choice deps.unicode get_text path_text
      (serving hello).router
      (match deps.unicode (serving hello).router get_text path_text)
match-Choice_example = match-Choice deps.unicode get_text path_text (serving hello).router

abbrev wild : Text
wild = b'/' ∷ b'*' ∷ []

-- A group "/u" with one middleware, which counts, and a route "/:i" in it.
abbrev counting : MiddlewareFunc ℕ
counting next r = next (record r { host = suc r.host })

abbrev users : Groups.Group ℕ
users = Groups.group (b'/' ∷ b'u' ∷ []) (counting ∷ [])

abbrev item : Text
item = b'/' ∷ b':' ∷ b'i' ∷ []

routed-handle_example :
    (apply_middleware
        (routed deps (Groups.handle deps users get_text item hello empty_app) asked).0
        []
      ≡ apply_middleware hello (counting ∷ []))
    × ((routed deps (Groups.handle deps users get_text item hello empty_app) asked).1
        ≡ (b'i' ∷ [], b'7' ∷ []) ∷ [])
unfolding routing App.request_url Groups.group
routed-handle_example =
    routed-handle deps users get_text item hello empty_app asked ((b'i' ∷ [], b'7' ∷ []) ∷ []) tt
      refl refl

abbrev ping_stream : Stream
ping_stream = receiving (frame frame_type_ping (5 ∷ []) ++ [])

abbrev bad_stream : Stream
bad_stream = receiving (frame frame_type_request [] ++ [])

-- A handler that fails with data that does not encode.
abbrev unencodable : HandlerFunc ℕ
unencodable = perform (Context.error toy 500 [] (table [] ∷ []))

handle_request-unencodable_example :
    handle_request deps (serving unencodable) asked peer (receiving []) 0
    ≡ done (receiving []) 0 (
        handler_failed get_text path_text
          (wrap (codes "quicframe: Error: marshal data: ") (new (codes "unsupported type")))
        ∷ [])
unfolding routing App.routed App.request_url
handle_request-unencodable_example =
    handle_request-unencodable deps (serving unencodable) asked peer (receiving []) 0 500 []
      (table [] ∷ []) (new (codes "unsupported type")) refl refl refl refl
