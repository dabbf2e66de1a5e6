-- ===== src/Examples/BasicServer/Tests.antt =====
-- The users of the basic server in small runs.
use quicframe.Prelude.{
  ℕ, ◌+◌, ◌-◌, ◌≡◌, refl, true, false, List, [], ◌∷◌, ◌++◌, none, Result, ok, length, arith,
}
use quicframe.Prelude.Text.{
  Text, Bytes, codes, decimal, text_eq, to_upper, trim, trim_left, trim_right, split,
}
use quicframe.Prelude.Dict
use quicframe.Protocol.Types.{Value, table, frame_type_request}
use quicframe.Protocol.Stream.{read_full, write}
use quicframe.Protocol.Codec.{
  read_frame, put_uint32, uint32, frame_length, decode_request, write_frame,
}
use quicframe.Protocol.Codec.Frames.{frame}
use quicframe.Framework.Context
use quicframe.Framework.Context.{Context, msgpack, param}
use quicframe.Framework.Handler.{Run, perform, apply_middleware}
use quicframe.Framework.App
use quicframe.Framework.App.{App, Deps, done, dispatch_stream}
use quicframe.Framework.App.Groups
use quicframe.Framework.App.Groups.{group}
use quicframe.Framework.Router
use quicframe.Framework.Path.{split_path, parse_pattern, parse_segment, match_segments}
use quicframe.Framework.Context.Access.{method, path, request_id, remote_addr}
use quicframe.Framework.App.Serving
use quicframe.Framework.App.Serving.{Event, idle, run, accept, enter, open_native, serve, take_at}
use quicframe.Framework.Validation.{Verdict, valid, bind_and_validate}
use quicframe.Middleware.RateLimit.{
  Limiters, rate_limit_simple, put_limiter, take_token, get_limiter, limiter_of, set_defaults,
}
use quicframe.Middleware.Logger.{info, logger}
use quicframe.Middleware.Recovery.{recovery}
use quicframe.Examples.BasicServer.{
  User, Server, start, fields_of, body_name, get_user, create_user, basic_server,
}
use quicframe.Examples.BasicServer.Numbering.{NumberedFrom}
use quicframe.Examples.BasicServer.Keeping.{run-NumberedFrom}
use quicframe.Examples.BasicServer.Lookup.{create_user-get_user}
use quicframe.Samples.{toy, receiving}
use quicframe.Samples.Apps.{peer, context}

-- A user is encoded as its values, and a body is the name itself.
abbrev values : List (Text × Text) → Bytes
values [] = []
values ((k, v) ∷ fs) = v ++ values fs

abbrev encode : Value → Result Bytes
encode (table fs) = ok (values fs)
encode v = toy.marshal v

abbrev deps : Deps
deps = record {
  msgpack = record toy {
    marshal = encode;
    unmarshal_value = λ b. ok (table ((codes "name", b) ∷ []));
  };
  parse_url = λ p. ok (record { path = p; query = [] });
  unicode = λ s. s;
}

abbrev any : Value → Verdict
any v = valid

abbrev generous : Limiters ℕ
generous = record { new_limiter = λ n. n; allow = λ now n. (n - 1, true) }

abbrev initial : Server ℕ
initial = start 5

-- POST /users with the body "Eve".
abbrev posted : Run (Server ℕ)
posted = record {
  ctx = record context { request = record context.request { body = codes "Eve" } };
  host = initial;
}

abbrev later : List User
later = record { id = codes "4"; name = codes "Mallory" } ∷ []

-- GET /users/3 when one more user is there.
abbrev asking : Run (Server ℕ)
asking = record {
  ctx = record context { params = (codes "id", codes "3") ∷ [] };
  host = record initial { users = (create_user deps any posted).0.host.users ++ later };
}

create_user-get_user_example :
    get_user deps asking
    ≡ perform
        (msgpack deps.msgpack 200
          (table (fields_of (record { id = decimal 3; name = body_name deps posted.ctx }))))
        asking
unfolding codes decimal Context.param Dict.lookup text_eq bind_and_validate Context.bind
create_user-get_user_example =
    create_user-get_user deps any posted asking later (omega arith) (refl, (refl, tt)) refl refl
      refl refl

-- The frame of that request.
abbrev post_frame : Bytes
post_frame =
    frame frame_type_request
      (1 ∷ b'r' ∷ 4 ∷ codes "POST" ++ (6 ∷ codes "/users" ++ 3 ∷ codes "Eve"))

abbrev events : List Event
events = accept ∷ enter ∷ open_native peer (receiving post_frame) ∷ serve 0 ∷ []

abbrev app : App (Server ℕ)
app = basic_server deps generous (λ a. ok a) (λ t. t) any

-- The state after it: one line is logged, and one of 1000 tokens is taken.
abbrev with_eve : Server ℕ
with_eve = record {
  users = initial.users ++ record { id = codes "3"; name = codes "Eve" } ∷ [];
  next_id = 4;
  limiters = (codes "unknown", record { limiter = 999; last_seen = 5 }) ∷ [];
  lines =
      record {
        level = info;
        id = b'r' ∷ [];
        method = codes "POST";
        path = codes "/users";
        remote = none;
        latency = 0;
        failure = none;
      }
      ∷ [];
  clock = 5;
}

abbrev final : Serving.Server (Server ℕ)
final = record {
  starting = 0;
  native = 1;
  sessions = 0;
  in_flight = [];
  stuck = [];
  answered =
      done
        (record (receiving []) { output = 0 ∷ 0 ∷ 0 ∷ 9 ∷ 2 ∷ 201 ∷ 1 ∷ b'r' ∷ 4 ∷ codes "3Eve" })
        with_eve []
      ∷ [];
  host = with_eve;
  wg = 1;
  crashed = false;
}

run-NumberedFrom_example :
    NumberedFrom 1 final.host.users × (final.host.next_id ≡ length final.host.users + 1)
unfolding codes decimal run take_at dispatch_stream read_frame read_full put_uint32 uint32
    frame_length decode_request write_frame write basic_server App.new App.use_middleware App.get
    App.post App.delete App.add_route Groups.get Groups.handle group Router.add Router.new_router
    Router.match to_upper text_eq trim trim_left trim_right split split_path parse_pattern
    parse_segment match_segments Dict.insert Dict.lookup Dict.merge apply_middleware App.routed
    App.request_url App.request_run Context.new_context Context.set_params Context.set_query_params
    Context.msgpack Context.final_headers Context.bind recovery logger rate_limit_simple create_user
    bind_and_validate take_token put_limiter get_limiter limiter_of set_defaults method path
    request_id remote_addr
run-NumberedFrom_example =
    run-NumberedFrom deps generous (λ a. ok a) (λ t. t) any events 5 final refl (omega arith)
