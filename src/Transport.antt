-- ===== src/Transport.antt =====
-- transport/transport.go. `quic.DialAddr` and `quic.ListenAddr` are parameters; of the TLS
-- configuration only the protocols matter here.
use quicframe.Prelude.{List, [], ◌∷◌, Result}
use quicframe.Prelude.Text.{Text, codes}
use quicframe.Prelude.Effects.{wrap_err}

-- `cfg.NextProtos`, with the default where there are none.
unfoldable pub control_protos : List Text → List Text
control_protos [] = codes "control/v1" ∷ codes "qf/1" ∷ []
control_protos (p ∷ ps) = p ∷ ps

unfoldable pub dial_control :
    {C : Type 0} → (Text → List Text → Result C) → Text → List Text → Result C
unfolding control_protos
dial_control dial_addr addr next_protos =
    wrap_err (codes "transport: DialControl: ") (dial_addr addr (control_protos next_protos))

unfoldable pub listen_control :
    {L : Type 0} → (Text → List Text → Result L) → Text → List Text → Result L
unfolding control_protos
listen_control listen_addr addr next_protos =
    wrap_err (codes "transport: ListenControl: ") (listen_addr addr (control_protos next_protos))
