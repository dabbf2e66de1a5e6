-- ===== src/Framework/App/Hosts.antt =====
-- A property of the application's own state that every handler keeps is kept by the whole server.
use quicframe.Prelude.{
  ◌≡◌, refl, List, [], ◌∷◌, All, All-append, All-append_right, GoError, Result, ok, err, inl, inr,
  Bool-cases, ◌==◌, ap, sym, subst, ◌∙◌,
}
use quicframe.Prelude.Text.{Text, Bytes}
use quicframe.Protocol.Types.{FrameType, Request, frame_type_ping, frame_type_request}
use quicframe.Protocol.Stream.{Stream}
use quicframe.Protocol.Codec.{read_frame, decode_request}
use quicframe.Framework.Context.{Peer, Act}
use quicframe.Framework.Handler.{
  Run, Exit, returned, panicked, HandlerFunc, MiddlewareFunc, perform, apply_middleware,
}
use quicframe.Framework.Handler.Order.{apply_middleware-cons, apply_middleware-nil}
use quicframe.Framework.Router
use quicframe.Framework.Router.{Route, Router}
use quicframe.Framework.Router.Choice.{Choice, match-Choice}
use quicframe.Framework.App.{
  App, Deps, new, use_middleware, add_route, handle_request, finish, reply_failure, run_after,
  handler_failed, routed, request_url, request_run, after_decode, after_read, dispatch_stream,
}

module _ {H : Type 0} (P : H → Type 0) where
  abbrev pub Keeps : HandlerFunc H → Type 0
  Keeps h = (r : Run H) → P r.host → P (h r).0.host

  abbrev pub KeepsAlways : MiddlewareFunc H → Type 0
  KeepsAlways m = (h : HandlerFunc H) → Keeps h → Keeps (m h)

  pub perform-Keeps : (act : Act (Unit {0})) → Keeps (perform act)
  perform-Keeps act r p = p

  pub apply_middleware-Keeps :
      (h : HandlerFunc H) (ms : List (MiddlewareFunc H))
      → Keeps h
      → All KeepsAlways ms
      → Keeps (apply_middleware h ms)
  apply_middleware-Keeps h [] keeps _ = subst Keeps (sym (apply_middleware-nil h)) keeps
  apply_middleware-Keeps h (m ∷ ms) keeps (always, rest) =
      subst Keeps (sym (apply_middleware-cons h m ms))
        (always (apply_middleware h ms) (apply_middleware-Keeps h ms keeps rest))

  -- All that a request can run keeps the property.
  pub record IsKept (app : App H) : Type 0 where
    pub routes : All (λ (rt : Route H). Keeps rt.handler) app.router.routes
    pub not_found : Keeps app.router.not_found
    pub method_not_allowed : Keeps app.router.method_not_allowed
    pub middleware : All KeepsAlways app.middleware
    pub no_after : app.after_middleware ≡ []

  pub new-IsKept : (deps : Deps) → IsKept (new deps)
  unfolding new Router.new_router
  new-IsKept deps = record {
    routes = tt;
    not_found = λ r p. p;
    method_not_allowed = λ r p. p;
    middleware = tt;
    no_after = refl;
  }

  pub use_middleware-IsKept :
      (ms : List (MiddlewareFunc H)) (app : App H)
      → All KeepsAlways ms
      → IsKept app
      → IsKept (use_middleware ms app)
  unfolding use_middleware
  use_middleware-IsKept ms app always kept = record {
    routes = kept.routes;
    not_found = kept.not_found;
    method_not_allowed = kept.method_not_allowed;
    middleware = All-append _ app.middleware ms kept.middleware always;
    no_after = kept.no_after;
  }

  pub add_route-IsKept :
      (deps : Deps) (method pattern : Text) (mw : List (MiddlewareFunc H)) (h : HandlerFunc H)
      (app : App H)
      → Keeps h
      → All KeepsAlways mw
      → IsKept app
      → IsKept (add_route deps method pattern mw h app)
  unfolding add_route Router.add
  add_route-IsKept deps method pattern mw h app keeps always kept = record {
    routes =
        All-append _ app.router.routes _ kept.routes (apply_middleware-Keeps h mw keeps always, tt);
    not_found = kept.not_found;
    method_not_allowed = kept.method_not_allowed;
    middleware = kept.middleware;
    no_after = kept.no_after;
  }

  module _ (deps : Deps) (app : App H) (kept : IsKept app) where
    Choice-Keeps :
        {method path : Text} {out : HandlerFunc H × List (Text × Text)}
        → Choice deps.unicode method path app.router out
        → Keeps out.0
    Choice-Keeps (Choice.chosen before after rt params split _ _ _ e) =
        let kept_rt : Keeps rt.handler =
          (All-append_right (λ (x : Route H). Keeps x.handler) before (rt ∷ after)
            (subst (All (λ (x : Route H). Keeps x.handler)) split kept.routes)).0 in
        subst (λ (x : HandlerFunc H × List (Text × Text)). Keeps x.0) (sym e) kept_rt
    Choice-Keeps (Choice.absent _ e) =
        subst (λ (x : HandlerFunc H × List (Text × Text)). Keeps x.0) (sym e) kept.not_found
    Choice-Keeps (Choice.refused _ _ e) =
        subst (λ (x : HandlerFunc H × List (Text × Text)). Keeps x.0) (sym e)
          kept.method_not_allowed

    reply_failure-host :
        (r : Run H) (id : Text) (e : GoError) → (reply_failure deps app r id e).host ≡ r.host
    unfolding reply_failure
    reply_failure-host r id e = elim (Bool-cases r.ctx.sent) [
      | inl sent ↦ rw sent
      | inr sent ↦ rw sent
    ]

    finish-host : (req : Request) (r : Run H) (e : Exit) → (finish deps app req r e).host ≡ r.host
    unfolding finish run_after
    finish-host req r (panicked m) = refl
    finish-host req r (returned (ok u)) =
        ap (λ hs. (run_after hs [] r (returned (ok u))).host) kept.no_after
    finish-host req r (returned (err e)) =
        ap
          (λ hs.
            (run_after hs (handler_failed req.method req.path e ∷ [])
              (reply_failure deps app r req.id e) (returned (ok tt))).host)
          kept.no_after
        ∙ reply_failure-host r req.id e

    handle_request-keeps :
        (req : Request) (peer : Peer) (s : Stream) (host : H)
        → P host
        → P (handle_request deps app req peer s host).host
    unfolding handle_request request_run routed
    handle_request-keeps req peer s host p =
        let chosen =
          Choice-Keeps
            (match-Choice deps.unicode req.method (request_url deps app req).path app.router) in
        let x =
          apply_middleware (routed deps app req).0 app.middleware
            (request_run deps app req peer s host) in
        subst P (sym (finish-host req x.0 x.1)) (
          apply_middleware-Keeps (routed deps app req).0 app.middleware chosen kept.middleware
            (request_run deps app req peer s host) p)

    after_decode-keeps :
        (r : Result Request) (peer : Peer) (s : Stream) (host : H)
        → P host
        → P (after_decode deps app r peer s host).host
    unfolding after_decode
    after_decode-keeps (err e) peer s host p = p
    after_decode-keeps (ok req) peer s host p = handle_request-keeps req peer s host p

    after_read-keeps :
        (r : Result (FrameType × Bytes)) (peer : Peer) (s : Stream) (host : H)
        → P host
        → P (after_read deps app r peer s host).host
    unfolding after_read
    after_read-keeps (err e) peer s host p = p
    after_read-keeps (ok (ft, payload)) peer s host p = elim (Bool-cases (ft == frame_type_ping)) [
      | inl is_ping ↦ rw is_ping p
      | inr other ↦ elim (Bool-cases (ft == frame_type_request)) [
        | inl is_request ↦
            rw (other, is_request)
              (after_decode-keeps (decode_request deps.msgpack payload) peer s host p)
        | inr unexpected ↦ rw (other, unexpected) p
      ]
    ]

    pub dispatch_stream-keeps :
        (peer : Peer) (s : Stream) (host : H)
        → P host
        → P (dispatch_stream deps app peer s host).host
    unfolding dispatch_stream
    dispatch_stream-keeps peer s host p =
        after_read-keeps (read_frame s).1 peer (read_frame s).0 host p
