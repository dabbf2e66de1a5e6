-- ===== src/Framework/App/Groups.antt =====
-- framework/router.go: route groups, which register through their app.
use quicframe.Prelude.{◌≡◌, refl, List, [], ◌++◌, some, All, ap, sym, ◌∙◌}
use quicframe.Prelude.Text.{Text, codes, to_upper}
use quicframe.Protocol.Types.{Request}
use quicframe.Framework.Path.{parse_pattern, split_path, match_segments}
use quicframe.Framework.Handler.{HandlerFunc, MiddlewareFunc, apply_middleware}
use quicframe.Framework.Handler.Order.{apply_middleware-append}
use quicframe.Framework.Router.{add}
use quicframe.Framework.Router.Choice.{Passes}
use quicframe.Framework.Router.First.{match-chosen}
use quicframe.Framework.App.{App, Deps, add_route, routed, request_url}

-- The field `app` is the app that the methods take and return.
pub record Group (H : Type 0) : Type 0 where
  pub prefix : Text
  pub middleware : List (MiddlewareFunc H)

module _ {H : Type 0} where
  -- `App.Group` and `Group.Use`.
  unfoldable pub group : Text → List (MiddlewareFunc H) → Group H
  group prefix mw = record { prefix = prefix; middleware = mw }

  unfoldable pub use_in_group : List (MiddlewareFunc H) → Group H → Group H
  use_in_group mw g = record g { middleware = g.middleware ++ mw }

module _ {H : Type 0} (deps : Deps) (g : Group H) where
  unfoldable pub handle : Text → Text → HandlerFunc H → App H → App H
  unfolding add_route
  handle method path handler a = add_route deps method (g.prefix ++ path) g.middleware handler a

  unfoldable pub get : Text → HandlerFunc H → App H → App H
  unfolding handle
  get path handler a = handle (codes "GET") path handler a

  unfoldable pub post : Text → HandlerFunc H → App H → App H
  unfolding handle
  post path handler a = handle (codes "POST") path handler a

  unfoldable pub put : Text → HandlerFunc H → App H → App H
  unfolding handle
  put path handler a = handle (codes "PUT") path handler a

  unfoldable pub delete : Text → HandlerFunc H → App H → App H
  unfolding handle
  delete path handler a = handle (codes "DELETE") path handler a

  unfoldable pub patch : Text → HandlerFunc H → App H → App H
  unfolding handle
  patch path handler a = handle (codes "PATCH") path handler a

  -- A request that no earlier route serves, and whose path and method fit a route registered
  -- through a group, runs the app's middleware, then the group's middleware as it was at the
  -- registration, then the handler, with the parameters of the prefixed pattern. Earlier routes
  -- are those in the table before the registration.
  pub routed-handle :
      (method path : Text) (h : HandlerFunc H) (a : App H) (req : Request)
      (params : List (Text × Text))
      → All (Passes deps.unicode req.method (request_url deps a req).path) a.router.routes
      → match_segments (parse_pattern (g.prefix ++ path)) (split_path (request_url deps a req).path)
        ≡ some params
      → to_upper deps.unicode method ≡ to_upper deps.unicode req.method
      → (apply_middleware (routed deps (handle method path h a) req).0 a.middleware
          ≡ apply_middleware h (a.middleware ++ g.middleware))
        × ((routed deps (handle method path h a) req).1 ≡ params)
  unfolding handle routed add request_url
  routed-handle method path h a req params passed found same =
      let e =
        match-chosen deps.unicode req.method (request_url deps a req).path
          (handle method path h a).router a.router.routes []
          (record {
            method = to_upper deps.unicode method;
            segments = parse_pattern (g.prefix ++ path);
            handler = apply_middleware h g.middleware;
          })
          params refl passed found same in
      (
        ap (λ x. apply_middleware x.0 a.middleware) e
            ∙ sym (apply_middleware-append h a.middleware g.middleware),
        ap (λ x. x.1) e,
      )
