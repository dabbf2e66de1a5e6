-- ===== src/Framework/App/Transports.antt =====
-- framework/app.go: what belongs to the two transports. The settings that a listener takes, the
-- setup of the WebTransport server, its endpoint, and what a stream's handlers see of its
-- connection. http3 and webtransport-go are parameters.
use quicframe.Prelude.{
  ◌*◌, Bool, true, false, List, [], ◌∷◌, Option, none, some, Result, ok, err, GoError,
}
use quicframe.Prelude.Text.{Text, codes}
use quicframe.Certificates.{second}
use quicframe.Framework.Quic.{QuicConfig}
use quicframe.Framework.Context.{Certificate, Peer}
use quicframe.Framework.App.Serving
use quicframe.Framework.App.Serving.{Event}

-- The fields `logger` and `quicCfg` of an App.
pub record Settings (L : Type 0) : Type 0 where
  pub logger : L
  pub quic_cfg : QuicConfig

abbrev pub default_quic_config : QuicConfig
default_quic_config = record {
  max_incoming_streams = 4096;
  max_incoming_uni_streams = 256;
  keep_alive_period = 30 * second;
  max_idle_timeout = 5 * (60 * second);
  enable_datagrams = true;
}

-- `default_logger` is slog.Default().
unfoldable pub new_settings : {L : Type 0} → L → Settings L
new_settings default_logger = record { logger = default_logger; quic_cfg = default_quic_config }

unfoldable pub set_logger : {L : Type 0} → L → Settings L → Settings L
set_logger l s = record s { logger = l }

unfoldable pub set_quic_config : {L : Type 0} → QuicConfig → Settings L → Settings L
set_quic_config cfg s = record s { quic_cfg = cfg }

-- A connection of quic-go, with the peer's certificates in the state of its TLS connection.
unfoldable pub native_peer : Option Text → List Certificate → Peer
native_peer remote_addr peer_certificates = record {
  remote_addr = remote_addr;
  peer_certificates = peer_certificates;
  is_native = true;
}

-- A session of WebTransport, which shows no certificates.
unfoldable pub web_transport_peer : Option Text → Peer
web_transport_peer remote_addr = record {
  remote_addr = remote_addr;
  peer_certificates = [];
  is_native = false;
}

-- The WebTransport server that is set up: `origin_allowed` is CheckOrigin.
pub record WebTransportServer (T : Type 0) : Type 0 where
  pub addr : Text
  pub tls_config : T
  pub quic_cfg : QuicConfig
  pub application_protocols : List Text
  pub origin_allowed : Text → Bool
  pub endpoint : Text

-- `configure` is http3.ConfigureTLSConfig.
unfoldable pub web_transport_server :
    {T L : Type 0} → (T → T) → Settings L → Text → T → WebTransportServer T
web_transport_server configure s addr tls_cfg = record {
  addr = addr;
  tls_config = configure tls_cfg;
  quic_cfg = s.quic_cfg;
  application_protocols = codes "quicframe" ∷ [];
  origin_allowed = λ origin. true;
  endpoint = codes "/wt";
}

-- The endpoint's handler: the event in the server's run, and the error that is logged.
abbrev pub upgraded : {S : Type 0} → Result S → Option Event × Option GoError
upgraded (err e) = (none, some e)
upgraded (ok session) = (some Serving.upgrade, none)

-- `ListenWebTransport`: `serve` is ListenAndServe of the server.
unfoldable pub listen_web_transport :
    {T L : Type 0}
    → (T → T)
    → (WebTransportServer T → Result (Unit {0}))
    → Settings L
    → Text
    → T
    → Result (Unit {0})
unfolding web_transport_server
listen_web_transport configure serve s addr tls_cfg =
    serve (web_transport_server configure s addr tls_cfg)
