-- ===== src/Framework/Quic.antt =====
-- What framework/client.go and framework/app.go set of quic-go's configuration.
use quicframe.Prelude.{ℕ, Bool}

-- A `*quic.Config`, times in nanoseconds; 0 stands for an unset field.
pub record QuicConfig : Type 0 where
  pub max_incoming_streams : ℕ
  pub max_incoming_uni_streams : ℕ
  pub keep_alive_period : ℕ
  pub max_idle_timeout : ℕ
  pub enable_datagrams : Bool
