-- ===== src/Tlsutil.antt =====
-- tlsutil/certs.go. `autocert` is golang.org/x/crypto's; of its manager only what the source sets is
-- modelled.
pub mod Leaf
pub mod Reuse
pub mod Creation
mod Tests
use quicframe.Prelude.{
  ℕ, ◌+◌, ◌-◌, ◌*◌, ◌/◌, ◌%◌, Bool, true, false, List, [], ◌∷◌, ◌++◌, ◌&&◌, ◌||◌, not, Option, none,
  some, Result, ok, err, new, if◌then◌else◌, ltb, leb,
}
use quicframe.Prelude.Text.{Text, Bytes, codes, is_empty}
use quicframe.Prelude.Effects.{
  Eff, bind, ◌>>=◌, ◌>>◌, and_then, lift, reading, wrap_err, wrap_pair, wrapping,
}
use quicframe.Certificates.{
  second, day, key_encipherment, digital_signature, server_auth, Template, X509, KeyPair, Crypto,
  Draw, Disk,
}

abbrev pub web_transport_dev_cert_validity : ℕ
web_transport_dev_cert_validity = 13 * day

-- `tls.VersionTLS13`
abbrev pub version_tls13 : ℕ
version_tls13 = 0x0304

-- A `*tls.Config`, as far as the source sets it.
pub record TlsConfig (K : Type 0) : Type 0 where
  pub certificates : List (KeyPair K)
  pub min_version : ℕ

-- The arguments of one call that come from outside: the clock's two readings and the random draw.
pub record Generation (K : Type 0) : Type 0 where
  pub first_now : ℕ
  pub second_now : ℕ
  pub draw : Draw K

pub record AutocertConfig : Type 0 where
  pub domains : List Text
  pub cache_dir : Text
  pub email : Text
  pub staging : Bool

-- The `autocert.Manager` that is set up: `hosts` are the allowed ones, `directory_url` the client's
-- where one is set.
pub record AutocertManager : Type 0 where
  pub cache : Text
  pub hosts : List Text
  pub email : Text
  pub directory_url : Option Text

unfoldable pub autocert : AutocertConfig → Result AutocertManager
autocert cfg = elim cfg.domains [
  | [] ↦ err (new (codes "tlsutil: at least one domain is required"))
  | _ ∷ _ ↦ ok (record {
    cache = if is_empty cfg.cache_dir then codes "/var/cache/quicframe/autocert" else cfg.cache_dir;
    hosts = cfg.domains;
    email = cfg.email;
    directory_url =
        if cfg.staging
        then some (codes "https://acme-staging-v02.api.letsencrypt.org/directory")
        else none;
  })
]

abbrev hex_digit : ℕ → ℕ
hex_digit d = if ltb d 10 then b'0' + d else b'a' + (d - 10)

-- `hex.EncodeToString`
unfoldable pub hex : Bytes → Text
hex [] = []
hex (b ∷ bs) = hex_digit (b / 16) ∷ hex_digit (b % 16) ∷ hex bs

-- The first item, or the error for `len(...) == 0`.
first_of : {A : Type 0} → Text → List A → Result A
first_of message [] = err (new message)
first_of message (a ∷ _) = ok a

-- The DER form of the leaf.
leaf_bytes : {K : Type 0} → Option (TlsConfig K) → Result Bytes
unfolding first_of
leaf_bytes none = err (new (codes "tlsutil: no certificates configured"))
leaf_bytes (some cfg) =
    and_then (first_of (codes "tlsutil: no certificates configured") cfg.certificates)
      λ pair. first_of (codes "tlsutil: certificate chain is empty") pair.certificate

abbrev map_ok : {A B : Type 0} → (A → B) → Result A → Result B
map_ok f (ok a) = ok (f a)
map_ok f (err e) = err e

abbrev pub base_template : {K : Type 0} → ℕ → Generation K → Template
base_template serial g = record {
  serial_number = serial;
  organization = codes "QuicFrame Dev" ∷ [];
  common_name = [];
  not_before = g.first_now - 60 * second;
  not_after = g.second_now + web_transport_dev_cert_validity;
  key_usage = key_encipherment ∷ digital_signature ∷ [];
  ext_key_usage = server_auth ∷ [];
  basic_constraints_valid = false;
  ip_addresses = [];
  dns_names = [];
}

-- What is left of the check once the leaf is parsed. A negative validity is not too long; the
-- subtraction here makes it 0.
abbrev pub is_compatible : ℕ → X509 → Bool
is_compatible now leaf =
    if ltb web_transport_dev_cert_validity (leaf.not_after - leaf.not_before)
    then false
    else if ltb now leaf.not_before || not (ltb now leaf.not_after)
    then false
    else true

add_host : Option Bytes → Text → Template → Template
add_host (some ip) h t = record t { ip_addresses = t.ip_addresses ++ ip ∷ [] }
add_host none h t = record t { dns_names = t.dns_names ++ h ∷ [] }

abbrev pub config : {K : Type 0} → KeyPair K → TlsConfig K
config pair = record { certificates = pair ∷ []; min_version = version_tls13 }

unfoldable pub from_files :
    {K W : Type 0} → (Text → Text → W → Result (KeyPair K)) → Text → Text → W → Result (TlsConfig K)
from_files load cert_file key_file w =
    map_ok config (wrap_err (codes "tlsutil: load key pair: ") (load cert_file key_file w))

-- `if checkErr == nil && ok`
judge : {K : Type 0} → TlsConfig K → Result Bool → Option (TlsConfig K)
judge cfg (ok true) = some cfg
judge cfg (ok false) = none
judge cfg (err e) = none

-- An early return of a configuration, or what follows it.
return_or : {W A : Type 0} → Option A → Eff W A → Eff W A
return_or (some a) next w = (w, ok a)
return_or none next w = next w

module _ {K : Type 0} (c : Crypto K) where
  -- The loop over the hosts.
  add_hosts : List Text → Template → Template
  unfolding add_host
  add_hosts [] t = t
  add_hosts (h ∷ hs) t = add_hosts hs (add_host (c.parse_ip h) h t)

  pub template : ℕ → Generation K → List Text → Template
  unfolding add_hosts
  template serial g hosts = add_hosts hosts (base_template serial g)

  -- `generateSelfSignedPEM`: the certificate's and the key's PEM files.
  unfoldable pub generate_self_signed_pem : Generation K → List Text → Result (Bytes × Bytes)
  unfolding template
  generate_self_signed_pem g hosts =
      and_then (wrap_err (codes "tlsutil: generate key: ") g.draw.key) λ priv.
        and_then (wrap_err (codes "tlsutil: generate serial: ") g.draw.serial) λ serial.
          and_then
            (wrap_err (codes "tlsutil: create certificate: ")
              (c.create_certificate (template serial g hosts) priv))
            λ cert_der.
              and_then (wrap_err (codes "tlsutil: marshal key: ") (c.marshal_key priv)) λ key_der.
                ok (
                  c.encode_pem (codes "CERTIFICATE") cert_der,
                  c.encode_pem (codes "EC PRIVATE KEY") key_der,
                )

  unfoldable pub self_signed : Generation K → List Text → Result (TlsConfig K)
  unfolding generate_self_signed_pem
  self_signed g hosts = and_then (generate_self_signed_pem g hosts) λ (cert_pem, key_pem).
      and_then (wrap_err (codes "tlsutil: X509KeyPair: ") (c.key_pair cert_pem key_pem))
        λ pair. ok (config pair)

  unfoldable pub web_transport_compatible_leaf : ℕ → Option (TlsConfig K) → Result Bool
  unfolding leaf_bytes
  web_transport_compatible_leaf now cfg = and_then (leaf_bytes cfg) λ der.
      and_then (wrap_err (codes "tlsutil: parse leaf certificate: ") (c.parse_certificate der))
        λ leaf. ok (is_compatible now leaf)

  unfoldable pub certificate_sha256 : Option (TlsConfig K) → Result Bytes
  unfolding leaf_bytes
  certificate_sha256 cfg = map_ok c.sha256 (leaf_bytes cfg)

  unfoldable pub certificate_sha256_hex : Option (TlsConfig K) → Result Text
  unfolding certificate_sha256
  certificate_sha256_hex cfg = map_ok hex (certificate_sha256 cfg)

  accept : ℕ → Result (TlsConfig K) → Option (TlsConfig K)
  unfolding judge
  accept now (err e) = none
  accept now (ok cfg) = judge cfg (web_transport_compatible_leaf now (some cfg))

  -- `load` is `tls.LoadX509KeyPair`.
  module _ {W : Type 0} (d : Disk W) (load : Text → Text → W → Result (KeyPair K)) where
    -- The nested tests of `LoadOrCreateSelfSigned`: the configuration that is returned at once.
    pub reusable : ℕ → Text → Text → W → Option (TlsConfig K)
    unfolding accept
    reusable now cert_file key_file w =
        if d.exists cert_file w
        then if d.exists key_file w then accept now (from_files load cert_file key_file w) else none
        else none

    -- What follows them.
    pub create_self_signed : Generation K → Text → Text → List Text → Eff W (TlsConfig K)
    create_self_signed g cert_file key_file hosts = do
      (cert_pem, key_pem) ← lift (generate_self_signed_pem g hosts)
      wrapping (codes "tlsutil: create cert dir: ") (d.mkdir_all (d.dir cert_file))
      wrapping (codes "tlsutil: create key dir: ") (d.mkdir_all (d.dir key_file))
      wrapping (codes "tlsutil: write cert: ") (d.write_file cert_file cert_pem)
      wrapping (codes "tlsutil: write key: ") (d.write_file key_file key_pem)
      reading (from_files load cert_file key_file)

    -- `now` is the reading of the clock in the check of the leaf.
    unfoldable pub load_or_create_self_signed :
        ℕ → Generation K → Text → Text → List Text → Eff W (TlsConfig K)
    unfolding return_or reusable create_self_signed
    load_or_create_self_signed now g cert_file key_file hosts w =
        return_or (reusable now cert_file key_file w)
          (create_self_signed g cert_file key_file hosts) w
