-- ===== src/Framework/Client/Connection.antt =====
-- framework/client.go: dialing, and the hash of a certificate file that is watched. `dial` is
-- quic.DialAddr for the protocols that the TLS configuration offers.
use quicframe.Prelude.{
  ◌≢◌, ◌⊎◌, All, ap, sym, ◌∙◌, ℕ, ◌*◌, ◌≡◌, refl, true, List, [], ◌∷◌, Option, none, some, Result,
  ok, err, wrap, if◌then◌else◌, Bool-cases, inl, inr,
}
use quicframe.Prelude.Text.{Text, Bytes, codes, text_eq, text_eq_iff}
use quicframe.Certificates.{second}
use quicframe.Tlsutil.{hex}
use quicframe.Framework.Quic.{QuicConfig}

-- `hashes` are the pinned ones.
pub record Client (C : Type 0) : Type 0 where
  pub conn : C
  pub quic_cfg : Option QuicConfig
  pub hashes : List Text

abbrev pub default_dial_config : QuicConfig
default_dial_config = record {
  max_incoming_streams = 0;
  max_incoming_uni_streams = 0;
  keep_alive_period = 30 * second;
  max_idle_timeout = 5 * (60 * second);
  enable_datagrams = true;
}

abbrev config_or_default : Option QuicConfig → QuicConfig
config_or_default none = default_dial_config
config_or_default (some cfg) = cfg

dialed : {C : Type 0} → QuicConfig → Result C → Result (Client C)
dialed cfg (err e) = err (wrap (codes "quicframe: dial: ") e)
dialed cfg (ok conn) = ok (record { conn = conn; quic_cfg = some cfg; hashes = [] })

unfoldable pub dial :
    {C : Type 0}
    → (Text → List Text → QuicConfig → Result C)
    → Text
    → Option QuicConfig
    → Result (Client C)
unfolding dialed
dial dial_addr addr cfg =
    dialed (config_or_default cfg) (dial_addr addr (codes "qf/1" ∷ []) (config_or_default cfg))

unfoldable pub new_client_from_conn : {C : Type 0} → C → Client C
new_client_from_conn conn = record { conn = conn; quic_cfg = none; hashes = [] }

unfoldable pub connection : {C : Type 0} → Client C → C
connection c = c.conn

-- `Close()`; `close` is CloseWithError of the connection.
unfoldable pub close_client :
    {C : Type 0} → (C → ℕ → Text → Result (Unit {0})) → Client C → Result (Unit {0})
close_client close c = close c.conn 0 (codes "client closed")

-- `read` is the result of os.ReadFile.
unfoldable pub calculate_cert_hash : (Bytes → Bytes) → Result Bytes → Result Text
calculate_cert_hash sha256 (err e) = err e
calculate_cert_hash sha256 (ok contents) = ok (hex (sha256 contents))

-- The goroutine of WatchCertFile: its `lastHash`, and the client.
pub record Watch (C : Type 0) : Type 0 where
  pub last_hash : Text
  pub client : Client C

-- One tick, with what the file's hash is then.
unfoldable pub watch_tick : {C : Type 0} → Result Text → Watch C → Watch C
watch_tick (err e) w = w
watch_tick (ok hash) w =
    if text_eq hash w.last_hash
    then w
    else record { last_hash = hash; client = record w.client { hashes = hash ∷ [] } }

abbrev pub watch : {C : Type 0} → List (Result Text) → Watch C → Watch C
watch [] w = w
watch (r ∷ rs) w = watch rs (watch_tick r w)

-- `WatchCertFile` starts with no hash.
abbrev pub watching : {C : Type 0} → Client C → Watch C
watching c = record { last_hash = []; client = c }

-- The hashes that the ticks leave: the last one that was read.
abbrev pub pinned : List (Result Text) → List Text → List Text
pinned [] hashes = hashes
pinned (ok h ∷ rs) hashes = pinned rs (h ∷ [])
pinned (err e ∷ rs) hashes = pinned rs hashes

-- A hash that was read is not the empty text.
abbrev pub IsHash : Result Text → Type 0
IsHash (err e) = Unit {0}
IsHash (ok h) = h ≢ []

-- Between ticks: no hash was read yet, or the last one is the pinned one.
abbrev InStep : {C : Type 0} → Watch C → Type 0
InStep w = (w.last_hash ≡ []) ⊎ (w.client.hashes ≡ w.last_hash ∷ [])

watch-InStep :
    {C : Type 0} (rs : List (Result Text)) (w : Watch C)
    → All IsHash rs
    → InStep w
    → (watch rs w).client ≡ record w.client { hashes = pinned rs w.client.hashes }
unfolding watch_tick
watch-InStep [] w h inv = refl
watch-InStep (err e ∷ rs) w (_, h) inv = watch-InStep rs w h inv
watch-InStep (ok hash ∷ rs) w (real, h) inv = elim (Bool-cases (text_eq hash w.last_hash)) [
  | inl e ↦
      let same = (text_eq_iff hash w.last_hash).0 e in
      elim inv [
        | inl fresh ↦ absurd (real (same ∙ fresh))
        | inr last ↦
            ap
              (λ b.
                (watch rs (
                  if b then w else record {
                    last_hash = hash;
                    client = record w.client { hashes = hash ∷ [] };
                  })).client)
              e
            ∙ (watch-InStep rs w h (inr last)
                ∙ ap (λ l. record w.client { hashes = pinned rs l })
                    (last ∙ ap (λ x. x ∷ []) (sym same)))
      ]
  | inr e ↦
      ap
        (λ b.
          (watch rs (
            if b then w else record {
              last_hash = hash;
              client = record w.client { hashes = hash ∷ [] };
            })).client)
        e
      ∙ watch-InStep rs
          (record { last_hash = hash; client = record w.client { hashes = hash ∷ [] } }) h
          (inr refl)
]

-- After any ticks the client is unchanged but for its pinned hashes: the last hash that could be
-- read, alone, or what they were before if none could be read. A hash is not the empty text.
pub watch-pinned :
    {C : Type 0} (rs : List (Result Text)) (c : Client C)
    → All IsHash rs
    → (watch rs (watching c)).client ≡ record c { hashes = pinned rs c.hashes }
watch-pinned rs c h = watch-InStep rs (watching c) h (inl refl)
