-- ===== src/Middleware/Recovery.antt =====
-- middleware/recovery.go. The log line of a recovered panic is not modelled.
pub mod Guarantee
pub mod Shutdown
use quicframe.Prelude.{[], ◌++◌}
use quicframe.Prelude.Text.{codes}
use quicframe.Protocol.Types.{status_internal_server_error}
use quicframe.Protocol.Codec.{Msgpack}
use quicframe.Framework.Context.{error}
use quicframe.Framework.Handler.{Run, Exit, returned, panicked, MiddlewareFunc, perform}

module _ {H : Type 0} (mp : Msgpack) where
  unfoldable pub recover : Run H × Exit → Run H × Exit
  recover (r, panicked m) =
      perform (error mp status_internal_server_error (codes "internal server error: " ++ m) []) r
  recover (r, returned e) = (r, returned e)

  unfoldable pub recovery : MiddlewareFunc H
  unfolding recover
  recovery next r = recover (next r)
