-- ===== src/Examples/BasicServer/Keeping.antt =====
-- No request makes the users' numbers wrong.
use quicframe.Prelude.{
  ℕ, ◌^◌, ◌-◌, ◌+◌, ◌<◌, ◌≡◌, refl, List, [], ◌∷◌, All, Option, none, some, Result, length,
}
use quicframe.Prelude.Text.{Text, codes, decimal}
use quicframe.Protocol.Types.{Value}
use quicframe.Framework.App
use quicframe.Framework.App.{App, Deps, add_route}
use quicframe.Framework.App.Groups
use quicframe.Framework.App.Groups.{Group, handle, group}
use quicframe.Framework.App.Hosts.{
  Keeps, KeepsAlways, IsKept, new-IsKept, use_middleware-IsKept, add_route-IsKept,
}
use quicframe.Framework.App.Serving.{Event, idle, run}
use quicframe.Framework.App.Serving
use quicframe.Framework.App.Serving.Hosts.{run-keeps}
use quicframe.Framework.Validation.{Verdict, Failure, bind_and_validate}
use quicframe.Middleware.RateLimit.{Limiters}
use quicframe.Middleware.Keeping.{
  recovery-Keeps, logger-Keeps, rate_limit_simple-Keeps, require_headers-Keeps,
  validate_headers-Keeps,
}
use quicframe.Examples.BasicServer.{
  User, Server, start, find_user, reply_user, get_user, create_after, create_user, zero_body,
  body_name, basic_server, log_host, limiter_host, global_middleware, tenant_api, tenant_rule,
}
use quicframe.Examples.BasicServer.Numbering.{NumberedFrom, IsNumbered, add_user-IsNumbered}

start-IsNumbered : (L : Type 0) (clock : ℕ) → IsNumbered (start {L = L} clock)
unfolding codes decimal
start-IsNumbered L clock few = ((refl, (refl, tt)), refl)

module _ {L : Type 0} (deps : Deps) where
  get_user-Keeps : Keeps (IsNumbered {L = L}) (get_user deps)
  unfolding get_user
  get_user-Keeps r p = replied (find_user _ r.host.users)
    where
      replied : (o : Option User) → IsNumbered (reply_user deps o r).0.host
      replied none = p
      replied (some u) = p

  create_user-Keeps :
      (check : Value → Verdict) → Keeps (IsNumbered {L = L}) (create_user deps check)
  unfolding create_user
  create_user-Keeps check r p = created (bind_and_validate deps.msgpack check zero_body r.ctx)
    where
      created : (o : Option Failure) → IsNumbered (create_after deps o r).0.host
      created none = add_user-IsNumbered (body_name deps r.ctx) r.host p
      created (some e) = p

module _ {L : Type 0} (deps : Deps) (lim : Limiters L) (split_host : Text → Result Text)
    (trim_space : Text → Text) (check : Value → Verdict) where
  global_middleware-Keeps :
      All
        (KeepsAlways (IsNumbered {L = L}))
        (global_middleware deps lim split_host trim_space check)
  global_middleware-Keeps = (
    recovery-Keeps IsNumbered deps.msgpack,
    (
      logger-Keeps IsNumbered deps.msgpack log_host (λ line h p. p),
      (
        rate_limit_simple-Keeps IsNumbered deps.msgpack lim limiter_host (λ es h p. p) split_host
            1000,
        tt,
      ),
    ),
  )

  tenant_api-Keeps :
      All
        (KeepsAlways (IsNumbered {L = L}))
        (tenant_api deps lim split_host trim_space check).middleware
  unfolding group
  tenant_api-Keeps = (
    require_headers-Keeps IsNumbered deps.msgpack trim_space (codes "x-tenant-id" ∷ []),
    (
      validate_headers-Keeps IsNumbered deps.msgpack
          ((codes "x-tenant-id", tenant_rule trim_space) ∷ []),
      tt,
    ),
  )

  basic_server-IsKept :
      IsKept (IsNumbered {L = L}) (basic_server deps lim split_host trim_space check)
  unfolding basic_server App.get App.post App.delete Groups.get handle group
  basic_server-IsKept =
      let route = add_route-IsKept (IsNumbered {L = L}) deps in
      route _ _ _ _ _ (λ r p. p) tt
        (route _ _ _ _ _ (λ r p. p) tt
          (route _ _ _ _ _ (λ r p. p) tenant_api-Keeps
            (route _ _ _ _ _ (create_user-Keeps deps check) tt (
              route _ _ _ _ _ (get_user-Keeps deps) tt (
                route _ _ _ _ _ (λ r p. p) tt
                  (route _ _ _ _ _ (λ r p. p) tt
                    (use_middleware-IsKept IsNumbered _ _ global_middleware-Keeps
                      (new-IsKept IsNumbered deps))))))))

  -- In every interleaving of connections, streams and requests, from the server's start, the users
  -- are numbered by their places: the ids are the decimal numbers from 1 on, in order, and the next
  -- id is the number after the last. There are less than 2 ^ 63 - 1 users.
  pub run-NumberedFrom :
      (es : List Event) (clock : ℕ) (s : Serving.Server (Server L))
      → run deps (basic_server deps lim split_host trim_space check) es (idle (start clock))
        ≡ some s
      → length s.host.users < 2 ^ 63 - 1
      → NumberedFrom 1 s.host.users × (s.host.next_id ≡ length s.host.users + 1)
  run-NumberedFrom es clock s h =
      run-keeps IsNumbered deps (basic_server deps lim split_host trim_space check)
        basic_server-IsKept es (idle (start clock)) s h (start-IsNumbered L clock)
