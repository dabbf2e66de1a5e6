-- ===== src/Framework/App.antt =====
-- framework/app.go: registration, and the dispatcher of one stream. The listeners stand in Listening,
-- the goroutines that accept connections and streams in Serving.
pub mod Groups
pub mod Replies
pub mod Silence
pub mod NotFound
pub mod Sending
pub mod Crashes
pub mod Hosts
pub mod Listening
pub mod Serving
pub mod Transports
mod Tests
use quicframe.Prelude.{
  ℕ, Bool, true, false, List, [], ◌∷◌, ◌++◌, Option, none, some, Result, ok, err, GoError, message,
  if◌then◌else◌, ◌==◌, not,
}
use quicframe.Prelude.Text.{Text, Bytes, codes, text_eq}
use quicframe.Protocol.Types.{
  FrameType, Request, ping, frame_type_ping, frame_type_pong, frame_type_request,
  status_bad_request, status_internal_server_error,
}
use quicframe.Protocol.Stream.{Stream}
use quicframe.Protocol.Codec.{Msgpack, read_frame, write_frame, write_error, decode_request}
use quicframe.Framework.Context.{Context, Peer, new_context, set_params, set_query_params}
use quicframe.Framework.Handler.{
  Run, Exit, returned, panicked, HandlerFunc, MiddlewareFunc, apply_middleware,
}
use quicframe.Framework.Router
use quicframe.Framework.Router.{Router}

pub record App (H : Type 0) : Type 0 where
  pub router : Router H
  pub middleware : List (MiddlewareFunc H)
  pub after_middleware : List (HandlerFunc H)

-- What `*url.URL` gives: the path and the values of `Query()`.
pub record Url : Type 0 where
  pub path : Text
  pub query : List (Text × List Text)

-- The code that the framework calls and does not contain: msgpack, `url.Parse` and the Unicode
-- tables behind `strings.ToUpper`.
pub record Deps : Type 0 where
  pub msgpack : Msgpack
  pub parse_url : Text → Result Url
  pub unicode : Text → Text

unfoldable pub new : {H : Type 0} → Deps → App H
new deps = record {
  router = Router.new_router deps.msgpack;
  middleware = [];
  after_middleware = [];
}

module _ {H : Type 0} where
  -- `Use` and `After`.
  unfoldable pub use_middleware : List (MiddlewareFunc H) → App H → App H
  use_middleware mw a = record a { middleware = a.middleware ++ mw }

  unfoldable pub after : List (HandlerFunc H) → App H → App H
  after mw a = record a { after_middleware = a.after_middleware ++ mw }

module _ {H : Type 0} (deps : Deps) where
  unfoldable pub add_route : Text → Text → List (MiddlewareFunc H) → HandlerFunc H → App H → App H
  add_route method pattern group_mw h a = record a {
    router = Router.add deps.unicode method pattern group_mw h a.router;
  }

  unfoldable pub get : Text → HandlerFunc H → App H → App H
  unfolding add_route
  get pattern h a = add_route (codes "GET") pattern [] h a

  unfoldable pub post : Text → HandlerFunc H → App H → App H
  unfolding add_route
  post pattern h a = add_route (codes "POST") pattern [] h a

  unfoldable pub put : Text → HandlerFunc H → App H → App H
  unfolding add_route
  put pattern h a = add_route (codes "PUT") pattern [] h a

  unfoldable pub delete : Text → HandlerFunc H → App H → App H
  unfolding add_route
  delete pattern h a = add_route (codes "DELETE") pattern [] h a

  unfoldable pub patch : Text → HandlerFunc H → App H → App H
  unfolding add_route
  patch pattern h a = add_route (codes "PATCH") pattern [] h a

-- What the dispatcher logs.
pub data LogLine : Type 0 where
  read_failed : GoError → LogLine
  unexpected_type : FrameType → LogLine
  decode_failed : GoError → LogLine
  handler_failed : Text → Text → GoError → LogLine

-- One dispatched stream: the stream, the application's state, the log lines, and the panic that
-- ends the goroutine, if there is one.
pub record Served (H : Type 0) : Type 0 where
  pub stream : Stream
  pub host : H
  pub log : List LogLine
  pub crash : Option Text

abbrev pub done : {H : Type 0} → Stream → H → List LogLine → Served H
done s host log = record { stream = s; host = host; log = log; crash = none }

-- `u, err := url.Parse(req.Path)` with its fallback, whose query is empty.
abbrev pub url_or_raw : Text → Result Url → Url
url_or_raw path (ok u) = u
url_or_raw path (err e) = record { path = path; query = [] }

module _ {H : Type 0} where
  abbrev pub close_run : List LogLine → Run H → Served H
  close_run log r = done r.ctx.stream r.host log

  -- The loop over the after-middleware: error values are dropped, a panic is not.
  run_after : List (HandlerFunc H) → List LogLine → Run H → Exit → Served H
  run_after hs log r (panicked m) = record {
    stream = r.ctx.stream;
    host = r.host;
    log = log;
    crash = some m;
  }
  run_after [] log r (returned _) = close_run log r
  run_after (h ∷ hs) log r (returned _) = run_after hs log (h r).0 (h r).1

module _ {H : Type 0} (deps : Deps) (app : App H) where
  -- The error frame for a handler that returned an error and sent nothing. It is written to the
  -- stream that the context shares, past the context's `sent` flag.
  reply_failure : Run H → Text → GoError → Run H
  reply_failure r id e = if r.ctx.sent then r else record r {
    ctx = record r.ctx {
      stream =
          (write_error deps.msgpack id status_internal_server_error (message e) [] r.ctx.stream).0;
    };
  }

  -- What follows the handler.
  finish : Request → Run H → Exit → Served H
  unfolding run_after reply_failure
  finish req r (panicked m) = record {
    stream = r.ctx.stream;
    host = r.host;
    log = [];
    crash = some m;
  }
  finish req r (returned (ok u)) = run_after app.after_middleware [] r (returned (ok u))
  finish req r (returned (err e)) =
      run_after app.after_middleware (handler_failed req.method req.path e ∷ [])
        (reply_failure r req.id e) (returned (ok tt))

  unfoldable pub request_url : Request → Url
  request_url req = url_or_raw req.path (deps.parse_url req.path)

  unfoldable pub routed : Request → HandlerFunc H × List (Text × Text)
  routed req = Router.match deps.unicode app.router req.method (request_url req).path

  unfoldable pub request_run : Request → Peer → Stream → H → Run H
  request_run req peer s host = record {
    ctx =
        set_query_params (request_url req).query
          (set_params (routed req).1 (new_context req peer s));
    host = host;
  }

  -- The middle part: from the decoded request to the end.
  pub handle_request : Request → Peer → Stream → H → Served H
  unfolding finish
  handle_request req peer s host =
      let x = apply_middleware (routed req).0 app.middleware (request_run req peer s host) in
      finish req x.0 x.1

  after_decode : Result Request → Peer → Stream → H → Served H
  after_decode (err e) peer s host =
      done (write_error deps.msgpack [] status_bad_request (codes "malformed request frame") [] s).0
        host (decode_failed e ∷ [])
  after_decode (ok req) peer s host = handle_request req peer s host

  after_read : Result (FrameType × Bytes) → Peer → Stream → H → Served H
  unfolding after_decode
  after_read (err e) peer s host = done s host (read_failed e ∷ [])
  after_read (ok (ft, payload)) peer s host =
      if ft == frame_type_ping
      then done (write_frame deps.msgpack frame_type_pong (ping (record { timestamp = 0 })) s).0
          host []
      else if ft == frame_type_request
      then after_decode (decode_request deps.msgpack payload) peer s host
      else done s host (unexpected_type ft ∷ [])

  unfoldable pub dispatch_stream : Peer → Stream → H → Served H
  unfolding after_read handle_request request_run routed request_url
  dispatch_stream peer s host = after_read (read_frame s).1 peer (read_frame s).0 host

-- `prepend(elem, slice)`
drop_all : Text → List Text → List Text
drop_all elem [] = []
drop_all elem (s ∷ rest) =
    let others = drop_all elem rest in if text_eq s elem then others else s ∷ others

unfoldable pub prepend : Text → List Text → List Text
unfolding drop_all
prepend elem slice = elem ∷ drop_all elem slice
