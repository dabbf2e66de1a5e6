-- ===== src/Examples/MtlsPki/Tests.antt =====
-- A request over a native connection with a certificate, and one over WebTransport.
use quicframe.Prelude.{◌≡◌, ◌≢◌, refl, List, [], ◌∷◌, ◌++◌, none, ◌⊎◌}
use quicframe.Prelude.Text.{Text, codes}
use quicframe.Framework.Context.{send}
use quicframe.Framework.Handler.{Run, perform, apply_middleware}
use quicframe.Framework.App.Transports.{native_peer, web_transport_peer}
use quicframe.Middleware.Auth.{unauthorized}
use quicframe.Middleware.Auth.Mtls.{peer_identity}
use quicframe.Middleware.Logger.{RequestLine, LogHost, log_exit}
use quicframe.Samples.Apps.{deps, context}
use quicframe.Examples.MtlsPki.{secure, mtls_app, identified, secure-decides}

abbrev lines : LogHost (List RequestLine)
lines = record { log = λ line ls. ls ++ line ∷ []; now = λ ls. 0 }

abbrev known : Run (List RequestLine)
known = record {
  ctx = record context { conn = native_peer none (record { common_name = codes "node-1" } ∷ []) };
  host = [];
}

abbrev unknown : Run (List RequestLine)
unknown = record { ctx = record context { conn = web_transport_peer none }; host = [] }

known_name : peer_identity known ≡ codes "node-1"
unfolding native_peer
known_name = refl

unknown_name : peer_identity unknown ≡ []
unfolding web_transport_peer
unknown_name = refl

secure-decides_example :
    ((peer_identity known ≢ [])
      × (apply_middleware (secure deps (λ v. [])) (mtls_app deps (λ v. []) lines).middleware known
          ≡ log_exit lines 0 (
              perform
                (send deps.msgpack 200
                  (codes "Hello, " ++ (peer_identity known ++ codes "! Access granted via mTLS.")))
                (identified known))))
    ⊎ ((peer_identity known ≡ [])
        × ((m : Text) × (apply_middleware
                (secure deps (λ v. []))
                (mtls_app deps (λ v. []) lines).middleware
                known
              ≡ unauthorized deps.msgpack m known)))
secure-decides_example = secure-decides deps (λ v. []) lines known
