-- ===== src/Examples/ApiServer/Tests.antt =====
-- A request to the API without a token, and a user that is posted without a body.
use quicframe.Prelude.{ℕ, ◌≡◌, refl, true, [], ◌∷◌, ◌++◌, none, ok, err, new}
use quicframe.Prelude.Text.{codes, text_eq, trim, trim_left, trim_right, split}
use quicframe.Prelude.Dict
use quicframe.Protocol.Types.{Request}
use quicframe.Framework.Context
use quicframe.Framework.Handler.{Run}
use quicframe.Framework.Path.{split_path}
use quicframe.Framework.App.{App, request_url, routed}
use quicframe.Middleware.Auth.{JwtParser, bearer}
use quicframe.Middleware.RateLimit.{Limiters}
use quicframe.Samples.{toy}
use quicframe.Samples.Apps.{deps, asked, context}
use quicframe.Examples.ApiServer.{Server, api_server}
use quicframe.Examples.ApiServer.Guarding.{Refuses, HasNoToken, api_server-Refuses}

abbrev generous : Limiters ℕ
generous = record { new_limiter = λ n. n; allow = λ now n. (n, true) }

-- A parser that accepts no token.
abbrev strict : JwtParser
strict t key = err (new (codes "invalid"))

abbrev initial : Server ℕ
initial = record { limiters = []; lines = []; clock = 5 }

abbrev app : App (Server ℕ)
app =
    api_server deps generous (λ a. ok a) strict (codes "key") (λ t. none) (λ r i. i)
      (λ r. 1 ∷ 2 ∷ [])

-- GET /api/v1/users without headers.
abbrev users : Request
users = record asked { path = codes "/api/v1/users" }

abbrev asking : Run (Server ℕ)
asking = record { ctx = record context { request = users }; host = initial }

no_token : HasNoToken toy strict (codes "key") asking
unfolding Context.get_header Dict.lookup text_eq codes
no_token t c = let h : [] ≡ bearer ++ c.credentials = c.header in cc

api_server-Refuses_example : Refuses toy (routed deps app users).0 asking
unfolding split_path request_url trim trim_left trim_right split codes
api_server-Refuses_example =
    api_server-Refuses deps generous (λ a. ok a) strict (codes "key") (λ t. none) (λ r i. i)
      (λ r. 1 ∷ 2 ∷ []) users (codes "users" ∷ []) asking refl no_token
