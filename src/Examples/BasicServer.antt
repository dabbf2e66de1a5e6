-- ===== src/Examples/BasicServer.antt =====
-- examples/basic-server/main.go: the routes and handlers of the smallest server, and its users. The
-- variables that the handlers share are the application's state, with the rate limiter's entries,
-- the log and the clock. Each handler holds the lock while it uses the variables.
pub mod Numbering
pub mod Keeping
pub mod Lookup
mod Tests
use quicframe.Prelude.{
  ℕ, ◌+◌, ◌-◌, ◌^◌, ◌%◌, List, [], ◌∷◌, ◌++◌, map, refl, Option, none, some, Result, ok, err,
  GoError, new, message, length, ltb, if◌then◌else◌,
}
use quicframe.Prelude.Text.{Text, codes, decimal, text_eq}
use quicframe.Prelude.Dict
use quicframe.Protocol.Types.{Value, table, tables, entry}
use quicframe.Framework.Context.{Context, bind, param, get_header, msgpack, error, no_content}
use quicframe.Framework.Handler.{Run, Exit, HandlerFunc, MiddlewareFunc, perform}
use quicframe.Framework.App
use quicframe.Framework.App.{App, Deps, use_middleware}
use quicframe.Framework.App.Groups
use quicframe.Framework.App.Groups.{Group, group}
use quicframe.Framework.Validation.{
  Verdict, Failure, plain, fields, validation_text, bound, bind_and_validate,
}
use quicframe.Middleware.Recovery.{recovery}
use quicframe.Middleware.Logger.{RequestLine, LogHost, logger}
use quicframe.Middleware.RateLimit.{Entries, Limiters, Host, rate_limit_simple}
use quicframe.Middleware.Headers.{HeaderRule, require_headers, validate_headers}

pub record User : Type 0 where
  pub id : Text
  pub name : Text

-- `next_id` is the 64-bit pattern of the int.
pub record Server (L : Type 0) : Type 0 where
  pub users : List User
  pub next_id : ℕ
  pub limiters : Entries L
  pub lines : List RequestLine
  pub clock : ℕ

-- `fmt.Sprintf("%d", n)` of an int.
abbrev pub int_text : ℕ → Text
int_text n = if ltb n (2 ^ 63) then decimal n else b'-' ∷ decimal (2 ^ 64 - n)

abbrev pub start : {L : Type 0} → ℕ → Server L
start clock = record {
  users =
      record { id = codes "1"; name = codes "Alice" }
      ∷ record { id = codes "2"; name = codes "Bob" }
      ∷ [];
  next_id = 3;
  limiters = [];
  lines = [];
  clock = clock;
}

-- A user as the map that it is.
abbrev pub fields_of : User → List (Text × Text)
fields_of u = (codes "id", u.id) ∷ (codes "name", u.name) ∷ []

abbrev pub copy_users : {L : Type 0} → Server L → List (List (Text × Text))
copy_users h = map fields_of h.users

-- The loop over the users: the first with the id.
unfoldable pub find_user : Text → List User → Option User
find_user id [] = none
find_user id (u ∷ us) = let later = find_user id us in if text_eq u.id id then some u else later

-- The body of POST /users, a struct with the field Name, is a table with the key name.
abbrev text_or_empty : Option Text → Text
text_or_empty none = []
text_or_empty (some t) = t

abbrev pub name_of : Value → Text
name_of (table t) = text_or_empty (Dict.lookup (codes "name") t)
name_of _ = []

abbrev value_or : Value → Result (Option Value) → Value
value_or old (ok v) = bound old v
value_or old (err e) = old

-- `err.Error()`
abbrev failure_text : Failure → Text
failure_text (plain e) = message e
failure_text (fields fs) = validation_text fs

-- What POST /users does to the variables.
abbrev pub new_user : {L : Type 0} → Text → Server L → User
new_user name h = record { id = int_text h.next_id; name = name }

abbrev pub add_user : {L : Type 0} → Text → Server L → Server L
add_user name h = record h {
  users = h.users ++ new_user name h ∷ [];
  next_id = (h.next_id + 1) % 2 ^ 64;
}

abbrev pub log_host : {L : Type 0} → LogHost (Server L)
log_host = record { log = λ line h. record h { lines = h.lines ++ line ∷ [] }; now = λ h. h.clock }

abbrev pub limiter_host : {L : Type 0} → Host (Server L) L
limiter_host = record {
  entries = λ h. h.limiters;
  put_entries = λ es h. record h { limiters = es };
  now = λ h. h.clock;
  entries-put_entries = λ es h. refl;
}

abbrev pub zero_body : Value
zero_body = table ((codes "name", []) ∷ [])

abbrev pub body_name : Deps → Context → Text
body_name deps c = name_of (value_or zero_body (bind deps.msgpack c))

module _ {L : Type 0} (deps : Deps) where
  abbrev pub ping : HandlerFunc (Server L)
  ping = perform (msgpack deps.msgpack 200 (table ((codes "pong", codes "ok") ∷ [])))

  abbrev pub list_users : HandlerFunc (Server L)
  list_users r =
      perform
        (msgpack deps.msgpack 200 (entry (codes "users") (tables (copy_users r.host)) (table []))) r

  abbrev reply_user : Option User → HandlerFunc (Server L)
  reply_user none = perform (error deps.msgpack 404 (codes "user not found") [])
  reply_user (some u) = perform (msgpack deps.msgpack 200 (table (fields_of u)))

  unfoldable pub get_user : HandlerFunc (Server L)
  get_user r = reply_user (find_user (param (codes "id") r.ctx) r.host.users) r

  -- `check` is the validator on the body.
  abbrev pub create_after : Option Failure → HandlerFunc (Server L)
  create_after (some e) = perform (error deps.msgpack 400 (failure_text e) [])
  create_after none = λ r.
      perform
        (msgpack deps.msgpack 201 (table (fields_of (new_user (body_name deps r.ctx) r.host))))
        (record r { host = add_user (body_name deps r.ctx) r.host })

  unfoldable pub create_user : (Value → Verdict) → HandlerFunc (Server L)
  create_user check r = create_after (bind_and_validate deps.msgpack check zero_body r.ctx) r

  abbrev pub list_tenant_users : HandlerFunc (Server L)
  list_tenant_users r =
      perform
        (msgpack deps.msgpack 200 (
          entry (codes "users") (tables (copy_users r.host))
            (table ((codes "tenant", get_header (codes "x-tenant-id") r.ctx) ∷ []))))
        r

  abbrev pub delete_user : HandlerFunc (Server L)
  delete_user = perform (no_content deps.msgpack)

  abbrev pub get_file : HandlerFunc (Server L)
  get_file r =
      perform (msgpack deps.msgpack 200 (table ((codes "path", param (codes "path") r.ctx) ∷ []))) r

abbrev pub tenant_rule : (Text → Text) → HeaderRule
tenant_rule trim_space value =
    if ltb (length (trim_space value)) 3
    then some (new (codes "invalid x-tenant-id header"))
    else none

-- `split_host` is net.SplitHostPort, `trim_space` strings.TrimSpace, `check` the validator.
module _ {L : Type 0} (deps : Deps) (lim : Limiters L) (split_host : Text → Result Text)
    (trim_space : Text → Text) (check : Value → Verdict) where
  abbrev pub global_middleware : List (MiddlewareFunc (Server L))
  global_middleware =
      recovery deps.msgpack
      ∷ logger log_host
      ∷ rate_limit_simple deps.msgpack lim limiter_host split_host 1000
      ∷ []

  abbrev pub tenant_api : Group (Server L)
  tenant_api = group (codes "/tenant") (
      require_headers deps.msgpack trim_space (codes "x-tenant-id" ∷ [])
      ∷ validate_headers deps.msgpack ((codes "x-tenant-id", tenant_rule trim_space) ∷ [])
      ∷ [])

  -- The app as `main` sets it up.
  unfoldable pub basic_server : App (Server L)
  basic_server = App.get deps (codes "/files/*path") (get_file deps) (
      App.delete deps (codes "/users/:id") (delete_user deps) (
        Groups.get deps tenant_api (codes "/users") (list_tenant_users deps) (
          App.post deps (codes "/users") (create_user deps check) (
            App.get deps (codes "/users/:id") (get_user deps) (
              App.get deps (codes "/users") (list_users deps) (
                App.get deps (codes "/ping") (ping deps)
                  (use_middleware global_middleware (App.new deps))))))))
