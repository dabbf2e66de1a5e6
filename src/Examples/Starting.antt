-- ===== src/Examples/Starting.antt =====
-- How the example servers start and end: the ends of `main` in examples/basic-server/main.go,
-- examples/streaming-demo/main.go and cmd/example/main.go. `join` is filepath.Join, and `returns` are
-- the listeners' returns, in their order. The signal cancels the listeners' context.
use quicframe.Prelude.{ℕ, List, [], ◌∷◌, Option, none, some, Result, ok, err, GoError}
use quicframe.Prelude.Text.{Text, codes}
use quicframe.Certificates.{KeyPair, Crypto, Disk}
use quicframe.Tlsutil.{
  TlsConfig, Generation, self_signed, certificate_sha256_hex, load_or_create_self_signed,
}
use quicframe.Framework.App.Listening.{Listener, listen_addr}
use quicframe.Examples.ApiServer.{env_or}

-- Where `main` is: it exits with 1 after the log line of an error, or ListenAddr runs, with the
-- certificate's hash where it is logged, until it has returned.
pub data Start (K : Type 0) : Type 0 where
  tls_failed : GoError → Start K
  hash_failed : GoError → Start K
  listening : TlsConfig K → Option Text → Option (Result (Unit {0})) → Start K

-- The exit code, where `main` has ended.
abbrev pub exit_code : {K : Type 0} → Start K → Option ℕ
exit_code (tls_failed e) = some 1
exit_code (hash_failed e) = some 1
exit_code (listening cfg hash none) = none
exit_code (listening cfg hash (some (ok _))) = some 0
exit_code (listening cfg hash (some (err e))) = some 1

module _ {K : Type 0} (c : Crypto K) where
  abbrev after_hash :
      Text → List (Listener × Result (Unit {0})) → TlsConfig K → Result Text → Start K
  after_hash wt_addr returns cfg (err e) = hash_failed e
  after_hash wt_addr returns cfg (ok hash) = listening cfg (some hash) (listen_addr wt_addr returns)

  abbrev after_tls :
      {W : Type 0}
      → Text
      → List (Listener × Result (Unit {0}))
      → W × Result (TlsConfig K)
      → W × Start K
  after_tls wt_addr returns (w, err e) = (w, tls_failed e)
  after_tls wt_addr returns (w, ok cfg) =
      (w, after_hash wt_addr returns cfg (certificate_sha256_hex c (some cfg)))

  -- The server of that name, with its two files and its address for WebTransport.
  unfoldable pub start_stored :
      {W : Type 0}
      → Disk W
      → (Text → Text → W → Result (KeyPair K))
      → (List Text → Text)
      → Text
      → Text
      → ℕ
      → Generation K
      → List (Listener × Result (Unit {0}))
      → W
      → W × Start K
  start_stored d load join name wt_addr now g returns w =
      let cert_dir = join (codes ".local" ∷ codes "certs" ∷ name ∷ []) in
      after_tls wt_addr returns (
        load_or_create_self_signed c d load now g
          (join (cert_dir ∷ codes "localhost-cert.pem" ∷ []))
          (join (cert_dir ∷ codes "localhost-key.pem" ∷ []))
          (codes "localhost" ∷ codes "127.0.0.1" ∷ []) w)

  abbrev pub start_basic_server :
      {W : Type 0}
      → Disk W
      → (Text → Text → W → Result (KeyPair K))
      → (List Text → Text)
      → ℕ
      → Generation K
      → List (Listener × Result (Unit {0}))
      → W
      → W × Start K
  start_basic_server d load join = start_stored d load join (codes "basic-server") (codes ":4434")

  abbrev pub start_streaming_demo :
      {W : Type 0}
      → Disk W
      → (Text → Text → W → Result (KeyPair K))
      → (List Text → Text)
      → ℕ
      → Generation K
      → List (Listener × Result (Unit {0}))
      → W
      → W × Start K
  start_streaming_demo d load join =
      start_stored d load join (codes "streaming-demo") (codes ":4436")

  -- `wt_env` is the value of WT_ADDR.
  abbrev after_self_signed :
      Text → List (Listener × Result (Unit {0})) → Result (TlsConfig K) → Start K
  after_self_signed wt_env returns (err e) = tls_failed e
  after_self_signed wt_env returns (ok cfg) =
      listening cfg none (listen_addr (env_or wt_env (codes ":4434")) returns)

  unfoldable pub start_api_server :
      Text → Generation K → List (Listener × Result (Unit {0})) → Start K
  start_api_server wt_env g returns =
      after_self_signed wt_env returns
        (self_signed c g (codes "localhost" ∷ codes "127.0.0.1" ∷ []))
