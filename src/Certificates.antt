-- ===== src/Certificates.antt =====
-- What pki/pki.go and tlsutil/certs.go use of crypto/x509, crypto/ecdsa, encoding/pem, crypto/tls, os
-- and time. The packages are parameters. Times are nanoseconds from an instant
-- that is before all of them, and every call of time.Now is an
-- argument of the function that makes it, so is what is drawn at random.
pub mod Laws
use quicframe.Prelude.{ℕ, ◌*◌, ◌/◌, Bool, List, Option, Result}
use quicframe.Prelude.Text.{Text, Bytes}
use quicframe.Prelude.Effects.{Eff}

abbrev pub second : ℕ
second = 1000000000

abbrev pub hour : ℕ
hour = 3600 * second

abbrev pub day : ℕ
day = 24 * hour

-- `x509.KeyUsage` and `x509.ExtKeyUsage`, the ones that occur.
pub data KeyUsage : Type 0 where
  key_encipherment : KeyUsage
  digital_signature : KeyUsage

pub data ExtKeyUsage : Type 0 where
  server_auth : ExtKeyUsage
  client_auth : ExtKeyUsage

-- An `x509.Certificate` that is to be signed.
pub record Template : Type 0 where
  pub serial_number : ℕ
  pub organization : List Text
  pub common_name : Text
  pub not_before : ℕ
  pub not_after : ℕ
  pub key_usage : List KeyUsage
  pub ext_key_usage : List ExtKeyUsage
  pub basic_constraints_valid : Bool
  pub ip_addresses : List Bytes
  pub dns_names : List Text

-- A parsed `x509.Certificate`, as far as the source looks into it.
pub record X509 : Type 0 where
  pub common_name : Text
  pub not_before : ℕ
  pub not_after : ℕ

-- A `tls.Certificate`: the chain in DER form, and the key.
pub record KeyPair (K : Type 0) : Type 0 where
  pub certificate : List Bytes
  pub private_key : K

pub record Crypto (K : Type 0) : Type 0 where
  -- `x509.CreateCertificate` with the template as its own parent.
  pub create_certificate : Template → K → Result Bytes
  pub parse_certificate : Bytes → Result X509
  pub marshal_key : K → Result Bytes
  pub parse_key : Bytes → Result K
  -- `pem.EncodeToMemory` of a block of a type; the bytes of the first block of `pem.Decode`.
  pub encode_pem : Text → Bytes → Bytes
  pub decode_pem : Bytes → Option Bytes
  -- `tls.X509KeyPair` of the two files' contents.
  pub key_pair : Bytes → Bytes → Result (KeyPair K)
  pub parse_ip : Text → Option Bytes
  pub sha256 : Bytes → Bytes

-- What one generation draws: `ecdsa.GenerateKey` and `rand.Int` below 2 ^ 128.
pub record Draw (K : Type 0) : Type 0 where
  pub key : Result K
  pub serial : Result ℕ

-- `os.Stat(path)` without an error, `os.ReadFile`, `os.MkdirAll`, `os.WriteFile`, and functions of
-- filepath.
pub record Disk (W : Type 0) : Type 0 where
  pub exists : Text → W → Bool
  pub read_file : Text → W → Result Bytes
  pub mkdir_all : Text → Eff W (Unit {0})
  pub write_file : Text → Bytes → Eff W (Unit {0})
  pub dir : Text → Text
  pub join : List Text → Text
