-- ===== src/Framework/Router.antt =====
-- framework/router.go: the route table. The first registered route that fits wins.
pub mod Choice
pub mod Every
pub mod First
use quicframe.Prelude.{ℕ, Bool, true, false, List, [], ◌∷◌, ◌++◌, Option, none, some, if◌then◌else◌}
use quicframe.Prelude.Text.{Text, codes, text_eq, to_upper}
use quicframe.Protocol.Codec.{Msgpack}
use quicframe.Framework.Context.{Context, Act, error}
use quicframe.Framework.Path.{Segment, parse_pattern, split_path, match_segments}
use quicframe.Framework.Handler.{HandlerFunc, MiddlewareFunc, perform, apply_middleware}

pub record Route (H : Type 0) : Type 0 where
  pub method : Text
  pub segments : List Segment
  pub handler : HandlerFunc H

-- The field `middleware` of the source is never read or set.
pub record Router (H : Type 0) : Type 0 where
  pub routes : List (Route H)
  pub not_found : HandlerFunc H
  pub method_not_allowed : HandlerFunc H

unfoldable pub no_route : Msgpack → Act (Unit {0})
no_route mp c =
    error mp 404 (codes "no route for " ++ (c.request.method ++ (codes " " ++ c.request.path))) [] c

unfoldable pub not_allowed : Msgpack → Act (Unit {0})
not_allowed mp c =
    error mp 405
      (codes "method " ++ (c.request.method ++ (codes " not allowed on " ++ c.request.path))) [] c

unfoldable pub new_router : {H : Type 0} → Msgpack → Router H
new_router mp = record {
  routes = [];
  not_found = perform (no_route mp);
  method_not_allowed = perform (not_allowed mp);
}

module _ (unicode : Text → Text) where
  unfoldable pub add :
      {H : Type 0} → Text → Text → List (MiddlewareFunc H) → HandlerFunc H → Router H → Router H
  add method pattern middleware handler r = record r {
    routes =
        r.routes
        ++ record {
          method = to_upper unicode method;
          segments = parse_pattern pattern;
          handler = apply_middleware handler middleware;
        }
          ∷ [];
  }

  -- The loop of `match`, and what follows it.
  pub match_routes :
      {H : Type 0}
      → Router H
      → Text
      → List Text
      → List (Route H)
      → Bool
      → HandlerFunc H × List (Text × Text)
  match_routes r method segs [] path_matched =
      if path_matched then (r.method_not_allowed, []) else (r.not_found, [])
  match_routes r method segs (rt ∷ rts) path_matched = elim (match_segments rt.segments segs) [
    | none ↦ match_routes r method segs rts path_matched
    | some params ↦
        let other = match_routes r method segs rts true in
        if text_eq rt.method (to_upper unicode method) then (rt.handler, params) else other
  ]

  unfoldable pub match : {H : Type 0} → Router H → Text → Text → HandlerFunc H × List (Text × Text)
  unfolding match_routes
  match r method path = match_routes r method (split_path path) r.routes false
