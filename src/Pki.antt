-- ===== src/Pki.antt =====
-- pki/pki.go. A manager is its base directory.
pub mod Storage
pub mod Rotation
pub mod Mixing
mod Tests
use quicframe.Prelude.{
  ℕ, ◌+◌, ◌-◌, ◌*◌, Bool, true, false, List, [], ◌∷◌, Option, none, some, Result, ok, err, new,
  if◌then◌else◌, ltb,
}
use quicframe.Prelude.Text.{Text, Bytes, codes}
use quicframe.Prelude.Effects.{
  Eff, bind, ◌>>=◌, ◌>>◌, pure, lift, reading, and_then, wrap_err, wrap_pair, wrapping,
}
use quicframe.Certificates.{
  second, hour, day, key_encipherment, digital_signature, server_auth, client_auth, Template, X509,
  Crypto, Draw, Disk,
}

-- `cert` is nil only where a certificate that was just made does not parse.
pub record Identity (K : Type 0) : Type 0 where
  pub node_id : Text
  pub cert_file : Text
  pub key_file : Text
  pub cert : Option X509
  pub private_key : K

pub record Manager : Type 0 where
  pub base_dir : Text

unfoldable pub new_manager : Text → Manager
new_manager base_dir = record { base_dir = base_dir }

-- The clock's reading and the random draw of one generation.
pub record Generation (K : Type 0) : Type 0 where
  pub now : ℕ
  pub draw : Draw K

abbrev pub not_before : {K : Type 0} → Generation K → ℕ
not_before g = g.now - 60 * second

-- The loop over the hosts appends each of them.
abbrev pub template : {K : Type 0} → ℕ → Generation K → Text → List Text → Template
template serial g node_id hosts = record {
  serial_number = serial;
  organization = codes "QuicFrame Managed PKI" ∷ [];
  common_name = node_id;
  not_before = not_before g;
  not_after = not_before g + 13 * day;
  key_usage = key_encipherment ∷ digital_signature ∷ [];
  ext_key_usage = server_auth ∷ client_auth ∷ [];
  basic_constraints_valid = true;
  ip_addresses = [];
  dns_names = hosts;
}

-- `x, _ := ...`
abbrev pub or_nil : {A : Type 0} → Result A → Option A
or_nil (ok a) = some a
or_nil (err e) = none

abbrev bytes_or_nil : Result Bytes → Bytes
bytes_or_nil (ok b) = b
bytes_or_nil (err e) = []

-- `if block == nil`
abbrev pub block_or : Text → Option Bytes → Result Bytes
block_or message (some b) = ok b
block_or message none = err (new message)

-- `time.Until(id.Cert.NotAfter) > 24*time.Hour`, and with `<`.
abbrev pub lives_over_a_day : ℕ → X509 → Bool
lives_over_a_day now x = ltb (now + 24 * hour) x.not_after

abbrev pub lives_under_a_day : ℕ → X509 → Bool
lives_under_a_day now x = ltb x.not_after (now + 24 * hour)

-- A test on a certificate that is there.
abbrev pub holds_of : (X509 → Bool) → Option X509 → Bool
holds_of p none = false
holds_of p (some x) = p x

module _ {K W : Type 0} (c : Crypto K) (d : Disk W) (m : Manager) (node_id : Text) where
  abbrev pub node_dir : Text
  node_dir = d.join (m.base_dir ∷ node_id ∷ [])

  abbrev pub cert_file : Text
  cert_file = d.join (node_dir ∷ codes "cert.pem" ∷ [])

  abbrev pub key_file : Text
  key_file = d.join (node_dir ∷ codes "key.pem" ∷ [])

  abbrev pub identity : Option X509 → K → Identity K
  identity cert key = record {
    node_id = node_id;
    cert_file = cert_file;
    key_file = key_file;
    cert = cert;
    private_key = key;
  }

  -- `LoadIdentity` after the two files were read.
  decode_identity : Bytes → Bytes → Result (Identity K)
  decode_identity cert_pem key_pem =
      and_then (block_or (codes "pki: failed to decode certificate PEM") (c.decode_pem cert_pem))
        λ block. and_then (c.parse_certificate block) λ cert.
          and_then (block_or (codes "pki: failed to decode key PEM") (c.decode_pem key_pem))
            λ key_block. and_then (c.parse_key key_block) λ key. ok (identity (some cert) key)

  unfoldable pub load_identity : W → Result (Identity K)
  unfolding decode_identity
  load_identity w =
      and_then (d.read_file cert_file w)
        λ cert_pem. and_then (d.read_file key_file w) λ key_pem. decode_identity cert_pem key_pem

  -- `GenerateIdentity` once the certificate is made.
  store_identity : K → Bytes → Eff W (Identity K)
  store_identity priv cert_der = do
    wrapping (codes "pki: create node dir: ") (d.mkdir_all node_dir)
    d.write_file cert_file (c.encode_pem (codes "CERTIFICATE") cert_der)
    d.write_file key_file
        (c.encode_pem (codes "EC PRIVATE KEY") (bytes_or_nil (c.marshal_key priv)))
    pure (identity (or_nil (c.parse_certificate cert_der)) priv)

  unfoldable pub generate_identity : Generation K → List Text → Eff W (Identity K)
  unfolding store_identity
  generate_identity g hosts = do
    priv ← lift (wrap_err (codes "pki: generate key: ") g.draw.key)
    serial ← lift (wrap_err (codes "pki: generate serial: ") g.draw.serial)
    cert_der ← lift (
        wrap_err (codes "pki: create certificate: ")
          (c.create_certificate (template serial g node_id hosts) priv))
    store_identity priv cert_der

  keep_if_fresh : ℕ → Result (Identity K) → Option (Identity K)
  keep_if_fresh now (err e) = none
  keep_if_fresh now (ok id) = if holds_of (lives_over_a_day now) id.cert then some id else none

  -- The nested tests of `LoadOrCreateIdentity`: the identity that is returned at once.
  pub stored : ℕ → W → Option (Identity K)
  unfolding keep_if_fresh
  stored now w =
      if d.exists cert_file w
      then if d.exists key_file w then keep_if_fresh now (load_identity w) else none
      else none

  return_or : Option (Identity K) → Eff W (Identity K) → Eff W (Identity K)
  return_or (some id) next w = (w, ok id)
  return_or none next w = next w

  -- `now` is the reading of the clock in time.Until.
  unfoldable pub load_or_create_identity : ℕ → Generation K → List Text → Eff W (Identity K)
  unfolding stored return_or generate_identity
  load_or_create_identity now g hosts w = return_or (stored now w) (generate_identity g hosts) w

  rotate : ℕ → Generation K → List Text → Result (Identity K) → W → W
  rotate now g hosts (err e) w = w
  rotate now g hosts (ok id) w =
      if holds_of (lives_under_a_day now) id.cert then (generate_identity g hosts w).0 else w

  -- One tick of `StartRotationWatcher`; the result of the generation is dropped.
  unfoldable pub watch_tick : ℕ → Generation K → List Text → W → W
  unfolding rotate
  watch_tick now g hosts w = rotate now g hosts (load_identity w) w
