-- ===== src/Examples/ApiServer/Guarding.antt =====
-- Requests to the group without a token.
use quicframe.Prelude.{
  ℕ, ◌≡◌, ◌⊎◌, inl, inr, refl, List, [], ◌∷◌, ◌++◌, All, All-imp, All-append, Option, none, some,
  Result, ap, sym, ◌∙◌, subst,
}
use quicframe.Prelude.Text.{Text, codes, text_eq, trim, trim_left, trim_right, split}
use quicframe.Protocol.Types.{Request, Token, bytes}
use quicframe.Protocol.Codec.{Msgpack}
use quicframe.Framework.Context
use quicframe.Framework.Path.{split_path, parse_pattern, parse_segment, match_segments}
use quicframe.Framework.Handler.{Run, HandlerFunc, MiddlewareFunc, perform, apply_middleware}
use quicframe.Framework.Handler.Order.{apply_middleware-cons, apply_middleware-nil}
use quicframe.Framework.Router
use quicframe.Framework.Router.{Route, Router, no_route, not_allowed}
use quicframe.Framework.Router.Every.{Serves, match-All}
use quicframe.Framework.App
use quicframe.Framework.App.{App, Deps, routed, request_url, use_middleware, add_route}
use quicframe.Framework.App.Groups
use quicframe.Framework.App.Groups.{group, handle}
use quicframe.Middleware.Auth.{JwtConfig, JwtParser, jwt, jwt_simple}
use quicframe.Middleware.Auth.Jwt
use quicframe.Middleware.Auth.Jwt.{Carries, jwt-Decision}
use quicframe.Middleware.RateLimit.{Limiters}
use quicframe.Examples.ApiServer.{Server, env_or, global_middleware, api_server}

abbrev api_path : List Text → List Text
api_path rest = codes "api" ∷ codes "v1" ∷ rest

-- The configuration of JWTSimple with the server's secret.
abbrev pub api_config : Text → JwtConfig
api_config secret = record {
  signing_key = bytes (env_or secret (codes "change-me-in-production"));
  signing_method = some (codes "HS256");
  token_header = [];
  context_key = [];
}

module _ {L : Type 0} (mp : Msgpack) where
  -- The handler does nothing but reply with an error: 401, 404 or 405.
  pub record Refuses (h : HandlerFunc (Server L)) (r : Run (Server L)) : Type 0 where
    pub code : ℕ
    pub message : Text
    pub denial : (code ≡ 401) ⊎ ((code ≡ 404) ⊎ (code ≡ 405))
    pub reply : h r ≡ perform (Context.error mp code message []) r

  module _ (parse : JwtParser) (secret : Text) where
    abbrev pub HasNoToken : Run (Server L) → Type 0
    HasNoToken r = (t : Token) → ¬ (Carries mp parse (api_config secret) r t)

    abbrev RefusesAll : HandlerFunc (Server L) → Type 0
    RefusesAll h = (r : Run (Server L)) → HasNoToken r → Refuses h r

    abbrev pub token_guard : MiddlewareFunc (Server L)
    token_guard = jwt_simple mp parse (bytes (env_or secret (codes "change-me-in-production")))

    jwt_simple-Refuses :
        (h : HandlerFunc (Server L)) (r : Run (Server L)) → HasNoToken r → Refuses (token_guard h) r
    unfolding jwt_simple
    jwt_simple-Refuses h r no_token = decided (jwt-Decision mp parse (api_config secret) h r)
      where
        decided :
            Jwt.Decision mp parse (api_config secret) h r (jwt mp parse (api_config secret) h r)
            → Refuses (jwt mp parse (api_config secret) h) r
        decided (Jwt.admitted t carried e) = absurd (no_token t carried)
        decided (Jwt.refused _ m e) = record {
          code = 401;
          message = m;
          denial = inl refl;
          reply = e;
        }

    module _ (rest : List Text) where
      -- The route does not match the path, or asks for a token.
      abbrev IsGuarded : Route (Server L) → Type 0
      IsGuarded rt = (match_segments rt.segments (api_path rest) ≡ none) ⊎ RefusesAll rt.handler

      -- The app's table has such routes only, and its two fallbacks are the framework's.
      record IsClosed (a : App (Server L)) : Type 0 where
        routes : All IsGuarded a.router.routes
        missing : RefusesAll a.router.not_found
        refusing : RefusesAll a.router.method_not_allowed

module _ {L : Type 0} (deps : Deps) (parse : JwtParser) (secret : Text) (rest : List Text) where
  abbrev Closed : App (Server L) → Type 0
  Closed = IsClosed deps.msgpack parse secret rest

  add-Closed :
      (method pattern : Text) (mw : List (MiddlewareFunc (Server L))) (h : HandlerFunc (Server L))
      (a : App (Server L))
      → (match_segments (parse_pattern pattern) (api_path rest) ≡ none)
        ⊎ RefusesAll deps.msgpack parse secret (apply_middleware h mw)
      → Closed a
      → Closed (add_route deps method pattern mw h a)
  unfolding add_route Router.add
  add-Closed method pattern mw h a guarded closed = record {
    routes =
        All-append (IsGuarded deps.msgpack parse secret rest) a.router.routes _ closed.routes
          (guarded, tt);
    missing = closed.missing;
    refusing = closed.refusing;
  }

  -- A route of a group that asks for a token.
  handle-Closed :
      (prefix method pattern : Text) (h : HandlerFunc (Server L)) (a : App (Server L))
      → Closed a
      → Closed (
          handle deps
            (group prefix (token_guard deps.msgpack parse secret ∷ []))
            method
            pattern
            h
            a)
  unfolding handle group
  handle-Closed prefix method pattern h a closed =
      let wrapped =
        apply_middleware-cons h (token_guard deps.msgpack parse secret) []
        ∙ ap (token_guard deps.msgpack parse secret) (apply_middleware-nil h) in
      add-Closed method (prefix ++ pattern) _ h a
        (inr (
          subst (RefusesAll deps.msgpack parse secret) (sym wrapped)
            (jwt_simple-Refuses deps.msgpack parse secret h)))
        closed

  new-Closed : (mw : List (MiddlewareFunc (Server L))) → Closed (use_middleware mw (App.new deps))
  unfolding use_middleware App.new Router.new_router no_route not_allowed
  new-Closed mw = record {
    routes = tt;
    missing =
        λ r no_token. record { code = 404; message = _; denial = inr (inl refl); reply = refl };
    refusing =
        λ r no_token. record { code = 405; message = _; denial = inr (inr refl); reply = refl };
  }

module _ {L : Type 0} (deps : Deps) (lim : Limiters L) (split_host : Text → Result Text)
    (parse : JwtParser) (secret : Text) (scan : Text → Option ℕ) (now : Run (Server L) → ℕ → ℕ)
    (ticks : Run (Server L) → List ℕ) where
  abbrev app : App (Server L)
  app = api_server deps lim split_host parse secret scan now ticks

  api_server-Closed : (rest : List Text) → IsClosed deps.msgpack parse secret rest app
  unfolding api_server App.get Groups.get Groups.post Groups.delete handle group codes parse_pattern
      parse_segment split_path trim trim_left trim_right split match_segments text_eq
  api_server-Closed rest =
      let outside = add-Closed deps parse secret rest in
      let inside = handle-Closed deps parse secret rest (codes "/api/v1") in
      outside (codes "GET") (codes "/files/*path") [] _ _ (inl refl) (
        outside (codes "GET") (codes "/events") [] _ _ (inl refl) (
          outside (codes "GET") (codes "/stream/:count") [] _ _ (inl refl) (
            inside (codes "POST") (codes "/upload") _ _ (
              inside (codes "DELETE") (codes "/users/:id") _ _ (
                inside (codes "POST") (codes "/users") _ _ (
                  inside (codes "GET") (codes "/users/:id") _ _ (
                    inside (codes "GET") (codes "/users") _ _ (
                      outside (codes "GET") (codes "/info") [] _ _ (inl refl) (
                        outside (codes "GET") (codes "/ping") [] _ _ (inl refl) (
                          new-Closed deps parse secret rest (
                            global_middleware deps lim split_host parse secret scan now
                              ticks)))))))))))

  IsGuarded-Serves :
      (req : Request) (rest : List Text)
      → split_path (request_url deps app req).path ≡ api_path rest
      → (rt : Route (Server L)) → IsGuarded deps.msgpack parse secret rest rt
      → Serves deps.unicode req.method
          (request_url deps app req).path
          (RefusesAll deps.msgpack parse secret)
          rt
  IsGuarded-Serves req rest inside rt (inl missed) =
      inl (ap (match_segments rt.segments) inside ∙ missed)
  IsGuarded-Serves req rest inside rt (inr refuses) = inr refuses

  -- Without a token, the API does nothing: for every request whose path lies under /api/v1, and every
  -- run in which the request does not carry a token that the server accepts, the handler that the
  -- table gives it does no more than reply with an error frame with code 401, 404 or 405.
  pub api_server-Refuses :
      (req : Request) (rest : List Text) (r : Run (Server L))
      → split_path (request_url deps app req).path ≡ codes "api" ∷ codes "v1" ∷ rest
      → HasNoToken deps.msgpack parse secret r
      → Refuses deps.msgpack (routed deps app req).0 r
  unfolding routed
  api_server-Refuses req rest r inside no_token =
      let closed = api_server-Closed rest in
      match-All deps.unicode req.method (request_url deps app req).path
        (RefusesAll deps.msgpack parse secret) app.router
        (All-imp (IsGuarded deps.msgpack parse secret rest) _ app.router.routes
          (IsGuarded-Serves req rest inside) closed.routes)
        closed.missing closed.refusing r no_token
