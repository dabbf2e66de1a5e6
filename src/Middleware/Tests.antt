-- ===== src/Middleware/Tests.antt =====
-- The middleware's theorems at concrete inputs.
use quicframe.Prelude.{
  length, ◌==◌, false, ℕ, ◌≡◌, refl, true, List, [], ◌∷◌, ◌++◌, none, some, Result, ok, err, new,
  arith, inl, inr, Result-cases, ap, if◌then◌else◌, ltb, ◌-◌,
}
use quicframe.Prelude.Text.{
  Text, codes, text_eq, is_empty, to_upper, trim, trim_left, trim_right, split,
}
use quicframe.Prelude.Dict
use quicframe.Protocol.Types.{Value, Token, map_claims, text, frame_type_error}
use quicframe.Protocol.Codec.Frames.{frame}
use quicframe.Framework.Context
use quicframe.Framework.Context.{Context}
use quicframe.Framework.Path.{split_path, parse_pattern, parse_segment, match_segments}
use quicframe.Framework.Handler.{Run, returned, panicked, HandlerFunc, apply_middleware}
use quicframe.Framework.Router
use quicframe.Framework.App
use quicframe.Framework.App.{App, done, handle_request}
use quicframe.Middleware.Auth.{JwtConfig, JwtParser, jwt, bearer}
use quicframe.Middleware.Auth.Jwt.{Carries, Decision, jwt-Decision}
use quicframe.Middleware.Recovery.{recovery}
use quicframe.Middleware.Recovery.Guarantee.{handle_request-survives, handle_request-recovers}
use quicframe.Middleware.Headers.{HeaderRule}
use quicframe.Middleware.RateLimit.{Entries, Limiters, Host}
use quicframe.Framework.App.Serving.{
  Server, Event, accept, enter, open_native, idle, run, shutdown_returns, block, take_at,
}
use quicframe.Framework.App.Serving.Shutdown.{opened}
use quicframe.Middleware.Recovery.Shutdown.{recovery-drains}
use quicframe.Samples.{toy, receiving, error_bytes}
use quicframe.Samples.Apps.{deps, peer, asked, context, hello, serving}

abbrev idle_run : Run ℕ
idle_run = record { ctx = context; host = 0 }

-- A parser that accepts every token as one of HS256.
abbrev accepting : Text → Result Value → Result Token
accepting tok (ok k) = ok (record { valid = true; claims = map_claims ((b's' ∷ [], tok) ∷ []) })
accepting tok (err e) = err e

abbrev parser : JwtParser
parser tok key = accepting tok (key (codes "HS256"))

abbrev plain : JwtConfig
plain = record {
  signing_key = text (b'k' ∷ []);
  signing_method = none;
  token_header = [];
  context_key = [];
}

asks_first :
    (credentials : Text) (key : Text → Result Value) (t : Token)
    → parser credentials key ≡ ok t
    → (k : Value) × (key (codes "HS256") ≡ ok k)
asks_first credentials key t h = elim (Result-cases (key (codes "HS256"))) [
  | inl (k, e) ↦ (k, e)
  | inr (e, failed) ↦
      let wrong : parser credentials key ≡ err e = ap (accepting credentials) failed in cc
]

abbrev parsed : Token
parsed = record { valid = true; claims = map_claims ((b's' ∷ [], b'z' ∷ []) ∷ []) }

-- The sample run with an authorization header.
abbrev bearing : Run ℕ
bearing = record {
  ctx = record context {
    request = record asked { headers = (codes "authorization", bearer ++ b'z' ∷ []) ∷ [] };
  };
  host = 0;
}

carried : Carries toy parser plain bearing parsed
unfolding Context.get_header Dict.lookup text_eq codes
carried = record { credentials = b'z' ∷ []; header = refl; parsed = refl; valid = refl }

jwt-Decision_example : Decision toy parser plain hello bearing (jwt toy parser plain hello bearing)
jwt-Decision_example = jwt-Decision toy parser plain hello bearing

-- A handler that panics, under Recovery.
abbrev panics : HandlerFunc ℕ
panics r = (r, panicked (b'!' ∷ []))

abbrev guarded : App ℕ
guarded = App.use_middleware (recovery toy ∷ []) (serving panics)

handle_request-survives_example :
    (handle_request deps guarded asked peer (receiving []) 0).crash ≡ none
unfolding App.use_middleware App.add_route App.new
handle_request-survives_example =
    handle_request-survives deps guarded asked peer (receiving []) 0 [] refl refl

handle_request-recovers_example :
    handle_request deps guarded asked peer (receiving []) 0
    ≡ done
        (record (receiving []) {
          output =
              frame frame_type_error
                (error_bytes 500 (b'r' ∷ []) (codes "internal server error: " ++ b'!' ∷ []));
        })
        0
        []
unfolding App.use_middleware App.add_route App.new Router.add Router.new_router Router.match
    to_upper text_eq trim trim_left trim_right split split_path parse_pattern parse_segment
    match_segments Dict.insert apply_middleware App.routed App.request_url App.request_run
    Context.new_context Context.set_params Context.set_query_params codes
handle_request-recovers_example =
    handle_request-recovers deps guarded asked peer (receiving []) 0 [] refl refl
      (record { ctx = record context { params = (b'i' ∷ [], b'7' ∷ []) ∷ [] }; host = 0 })
      (b'!' ∷ []) (error_bytes 500 (b'r' ∷ []) (codes "internal server error: " ++ b'!' ∷ [])) refl
      refl refl (omega arith) refl

-- A rule that wants a header that is not empty.
abbrev rules : List (Text × HeaderRule)
rules = (codes "authorization", λ t. if is_empty t then some (new (codes "empty")) else none) ∷ []

-- A limiter that has a number of tokens and gets no new ones.
abbrev counting : Limiters ℕ
counting = record { new_limiter = λ burst. burst; allow = λ now tokens. (tokens - 1, ltb 0 tokens) }

-- The application's state is the entries and the time.
abbrev host : Host (Entries ℕ × ℕ) ℕ
host = record {
  entries = λ h. h.0;
  put_entries = λ es h. (es, h.1);
  now = λ h. h.1;
  entries-put_entries = λ es h. refl;
}

abbrev entries : Entries ℕ
entries =
    (b'a' ∷ [], record { limiter = 1; last_seen = 5 })
    ∷ (b'b' ∷ [], record { limiter = 2; last_seen = 90 })
    ∷ []

-- A request when the state is the entries above at time 7.
abbrev limited_run : Run (Entries ℕ × ℕ)
limited_run = record { ctx = context; host = (entries, 7) }

abbrev ok_handler : HandlerFunc (Entries ℕ × ℕ)
ok_handler r = (r, returned (ok tt))

-- Runs of the guarded app: a connection with a stream in flight and one that is stuck.
abbrev busy : Server ℕ
busy = record (idle 0) {
  native = 1;
  in_flight = (peer, receiving []) ∷ [];
  stuck = (peer, receiving []) ∷ [];
  wg = 3;
}

abbrev busy_events : List Event
busy_events =
    accept
    ∷ enter
    ∷ open_native peer (receiving [])
    ∷ open_native peer (receiving [])
    ∷ block 0 false
    ∷ []

recovery-drains_example :
    (fs : List Event) × (s' : Server ℕ) × (opened fs ≡ 0)
    × (run deps guarded fs busy ≡ some s')
    × (s'.stuck ≡ busy.stuck)
    × (s'.wg ≡ length busy.stuck)
    × (shutdown_returns s' ≡ (length busy.stuck == 0))
unfolding App.use_middleware App.add_route App.new run take_at
recovery-drains_example = recovery-drains deps guarded [] busy_events 0 busy refl refl refl
