-- ===== src/Middleware/Logger.antt =====
-- middleware/logger.go. The log is a part of the application's state, and so is the clock. Levels
-- and the default logger are slog's.
pub mod Panics
use quicframe.Prelude.{
  ℕ, ◌-◌, Bool, true, false, List, [], ◌∷◌, Option, none, some, Result, ok, err, GoError,
}
use quicframe.Prelude.Text.{Text}
use quicframe.Framework.Context.Access.{method, path, request_id, remote_addr}
use quicframe.Framework.Handler.{Run, Exit, returned, panicked, HandlerFunc, MiddlewareFunc}

pub data Level : Type 0 where
  info : Level
  error : Level

-- One line with the message "request".
pub record RequestLine : Type 0 where
  pub level : Level
  pub id : Text
  pub method : Text
  pub path : Text
  pub remote : Option Text
  pub latency : ℕ
  pub failure : Option GoError

pub record LogHost (H : Type 0) : Type 0 where
  pub log : RequestLine → H → H
  pub now : H → ℕ

abbrev pub level_of : Result (Unit {0}) → Level
level_of (ok u) = info
level_of (err e) = error

abbrev pub failure_of : Result (Unit {0}) → Option GoError
failure_of (ok u) = none
failure_of (err e) = some e

module _ {H : Type 0} (at : LogHost H) where
  abbrev pub line_of : ℕ → Run H → Result (Unit {0}) → RequestLine
  line_of start r e = record {
    level = level_of e;
    id = request_id r.ctx;
    method = method r.ctx;
    path = path r.ctx;
    remote = remote_addr r.ctx;
    latency = at.now r.host - start;
    failure = failure_of e;
  }

  -- What follows `next`; a panic goes through.
  unfoldable pub log_exit : ℕ → Run H × Exit → Run H × Exit
  log_exit start (r, panicked m) = (r, panicked m)
  log_exit start (r, returned e) =
      (record r { host = at.log (line_of start r e) r.host }, returned e)

  unfoldable pub logger : MiddlewareFunc H
  unfolding log_exit
  logger next r = log_exit (at.now r.host) (next r)
