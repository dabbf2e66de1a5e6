-- ===== src/Examples/ApiServer.antt =====
-- cmd/example/main.go: the app with a group behind JWT; its two routes that stream stand in
-- PushStreams. The application's state is the rate limiter's entries, the log and the clock.
pub mod Guarding
mod Tests
use quicframe.Prelude.{
  ℕ, ◌+◌, Bool, true, false, List, [], ◌∷◌, ◌++◌, Option, none, some, Result, ok, err, GoError,
  message, refl, length, take, ltb, if◌then◌else◌,
}
use quicframe.Prelude.Text.{Text, Bytes, codes, decimal, is_empty, text_eq}
use quicframe.Prelude.Dict
use quicframe.Protocol.Types.{Value, bytes, text, number, table, tables, entry}
use quicframe.Tlsutil.{hex}
use quicframe.Framework.Context.{Context, bind, param, msgpack, error, no_content}
use quicframe.Framework.Handler.{Run, Exit, panicked, HandlerFunc, MiddlewareFunc, perform}
use quicframe.Framework.App
use quicframe.Framework.App.{App, Deps, use_middleware}
use quicframe.Framework.App.Groups
use quicframe.Framework.App.Groups.{Group, group}
use quicframe.Middleware.Recovery.{recovery}
use quicframe.Middleware.Logger.{RequestLine, LogHost, logger}
use quicframe.Middleware.RateLimit.{Entries, Limiters, Host, rate_limit_simple}
use quicframe.Examples.PushStreams.{push_stream, push_events}
use quicframe.Middleware.Auth.{JwtParser, jwt_simple}

pub record Server (L : Type 0) : Type 0 where
  pub limiters : Entries L
  pub lines : List RequestLine
  pub clock : ℕ

abbrev pub log_host : {L : Type 0} → LogHost (Server L)
log_host = record { log = λ line h. record h { lines = h.lines ++ line ∷ [] }; now = λ h. h.clock }

abbrev pub limiter_host : {L : Type 0} → Host (Server L) L
limiter_host = record {
  entries = λ h. h.limiters;
  put_entries = λ es h. record h { limiters = es };
  now = λ h. h.clock;
  entries-put_entries = λ es h. refl;
}

-- `envOr`: `v` is what os.Getenv returns.
abbrev pub env_or : Text → Text → Text
env_or v fallback = if is_empty v then fallback else v

-- `payload["id"] = ...` on a decoded map; anything else that decodes stands for a nil map.
abbrev without_id : Value → Value
without_id (table fields) = table (Dict.delete (codes "id") fields)
without_id (entry k v rest) =
    let others = without_id rest in if text_eq k (codes "id") then others else entry k v others
without_id v = v

abbrev is_map : Value → Bool
is_map (table fields) = true
is_map (entry k v rest) = true
is_map _ = false

abbrev pub with_id : Text → Value → Option Value
with_id id v = if is_map v then some (entry (codes "id") (text id) (without_id v)) else none

-- `preview_hex` and `received_bytes`.
abbrev pub upload_summary : Bytes → Value
upload_summary body =
    entry (codes "received_bytes") (number (length body))
      (table ((codes "preview_hex", hex (if ltb 8 (length body) then take 8 body else body)) ∷ []))

module _ {L : Type 0} (deps : Deps) where
  abbrev pub ping : HandlerFunc (Server L)
  ping = perform (msgpack deps.msgpack 200 (table ((codes "pong", codes "ok") ∷ [])))

  abbrev pub info : HandlerFunc (Server L)
  info r =
      perform
        (msgpack deps.msgpack 200 (
          entry (codes "time") (number r.host.clock) (
            table (
              (codes "framework", codes "QuicFrame")
              ∷ (codes "transport", codes "QUIC/1")
              ∷ (codes "encoding", codes "MsgPack")
              ∷ []))))
        r

  abbrev pub list_users : HandlerFunc (Server L)
  list_users = perform (
      msgpack deps.msgpack 200 (
        entry (codes "users")
          (tables (
            ((codes "id", codes "1")
              ∷ (codes "name", codes "Alice")
              ∷ (codes "role", codes "admin")
              ∷ [])
            ∷ ((codes "id", codes "2")
                ∷ (codes "name", codes "Bob")
                ∷ (codes "role", codes "user")
                ∷ [])
            ∷ []))
          (entry (codes "total") (number 2) (table []))))

  abbrev pub get_user : HandlerFunc (Server L)
  get_user r =
      perform
        (msgpack deps.msgpack 200
          (table ((codes "id", param (codes "id") r.ctx) ∷ (codes "name", codes "Alice") ∷ [])))
        r

  -- The assignment to `payload["id"]`: a nil map panics.
  abbrev pub reply_created : Option Value → HandlerFunc (Server L)
  reply_created (some v) r = perform (msgpack deps.msgpack 201 v) r
  reply_created none r = (r, panicked (codes "assignment to entry in nil map"))

  abbrev pub create_bound : Result (Option Value) → HandlerFunc (Server L)
  create_bound (err e) r =
      perform (error deps.msgpack 400 (codes "invalid body: " ++ message e) []) r
  create_bound (ok none) r = reply_created none r
  create_bound (ok (some v)) r = reply_created (with_id (decimal r.host.clock) v) r

  unfoldable pub create_user : HandlerFunc (Server L)
  create_user r = create_bound (bind deps.msgpack r.ctx) r

  abbrev pub delete_user : HandlerFunc (Server L)
  delete_user = perform (no_content deps.msgpack)

  abbrev pub upload : HandlerFunc (Server L)
  upload r = perform (msgpack deps.msgpack 200 (upload_summary r.ctx.request.body)) r

  abbrev pub get_file : HandlerFunc (Server L)
  get_file r =
      perform
        (msgpack deps.msgpack 200 (
          table (
            (codes "path", param (codes "path") r.ctx)
            ∷ (codes "note", codes "demo placeholder")
            ∷ [])))
        r

-- `split_host` is net.SplitHostPort, `secret` the value of JWT_SECRET, `scan` fmt.Sscanf with %d. `now`
-- and `ticks` are what the clock and the timers give the two handlers that stream.
module _ {L : Type 0} (deps : Deps) (lim : Limiters L) (split_host : Text → Result Text)
    (parse : JwtParser) (secret : Text) (scan : Text → Option ℕ) (now : Run (Server L) → ℕ → ℕ)
    (ticks : Run (Server L) → List ℕ) where
  abbrev pub global_middleware : List (MiddlewareFunc (Server L))
  global_middleware =
      recovery deps.msgpack
      ∷ logger log_host
      ∷ rate_limit_simple deps.msgpack lim limiter_host split_host 500
      ∷ []

  abbrev pub api : Group (Server L)
  api =
      group (codes "/api/v1") (
        jwt_simple deps.msgpack parse (bytes (env_or secret (codes "change-me-in-production")))
        ∷ [])

  unfoldable pub api_server : App (Server L)
  api_server = App.get deps (codes "/files/*path") (get_file deps) (
      App.get deps (codes "/events") (λ r. perform (push_events deps.msgpack (ticks r)) r)
        (App.get deps (codes "/stream/:count")
          (λ r. perform (push_stream deps.msgpack scan (now r)) r)
          (Groups.post deps api (codes "/upload") (upload deps) (
            Groups.delete deps api (codes "/users/:id") (delete_user deps) (
              Groups.post deps api (codes "/users") (create_user deps) (
                Groups.get deps api (codes "/users/:id") (get_user deps) (
                  Groups.get deps api (codes "/users") (list_users deps) (
                    App.get deps (codes "/info") (info deps) (
                      App.get deps (codes "/ping") (ping deps)
                        (use_middleware global_middleware (App.new deps)))))))))))
