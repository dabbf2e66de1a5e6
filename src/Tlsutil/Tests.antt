-- ===== src/Tlsutil/Tests.antt =====
-- The theorems on key pairs on disk at concrete inputs.
use quicframe.Prelude.{ℕ, ◌+◌, ◌*◌, ◌≤◌, ◌<◌, ◌≡◌, ◌↔◌, refl, true, [], ◌∷◌, some, ok, arith}
use quicframe.Prelude.Text.{Text, Bytes, codes, text_eq, ne_of_text_eq}
use quicframe.Prelude.Dict
use quicframe.Certificates.{second, day, X509, KeyPair}
use quicframe.Tlsutil.{
  web_transport_dev_cert_validity, Generation, add_hosts, template, config,
  generate_self_signed_pem, web_transport_compatible_leaf, from_files, create_self_signed,
  load_or_create_self_signed,
}
use quicframe.Tlsutil.Leaf.{HasLeaf, leaf, web_transport_compatible_leaf_iff}
use quicframe.Tlsutil.Reuse.{load_or_create_self_signed-regenerates}
use quicframe.Tlsutil.Creation.{create_self_signed-stores}
use quicframe.Samples.Disks.{crypto, crypto-IsSound, disk, disk-IsLawful, load, draw, Files}

abbrev cert_path : Text
cert_path = b'c' ∷ []

abbrev key_path : Text
key_path = b'k' ∷ []

-- A certificate of 10 seconds and a key.
abbrev short_pair : KeyPair ℕ
short_pair = record { certificate = (1 ∷ 11 ∷ []) ∷ []; private_key = 7 }

abbrev short_leaf : X509
short_leaf = record { common_name = []; not_before = 1; not_after = 11 }

abbrev stored : Files
stored = ((cert_path, 1 ∷ 11 ∷ []) ∷ (key_path, 7 ∷ []) ∷ [], [])

abbrev generation : Generation ℕ
generation = record { first_now = 100 * second; second_now = 100 * second; draw = draw 7 }

web_transport_compatible_leaf_iff_example :
    (web_transport_compatible_leaf crypto 5 (some (config short_pair)) ≡ ok true) ↔ (
      (der : Bytes) × (x : X509) × HasLeaf (some (config short_pair)) der
      × (crypto.parse_certificate der ≡ ok x)
      × (x.not_after ≤ x.not_before + web_transport_dev_cert_validity)
      × (x.not_before ≤ 5)
      × (5 < x.not_after))
web_transport_compatible_leaf_iff_example =
    web_transport_compatible_leaf_iff crypto 5 (some (config short_pair))

-- What the code above makes at 100 seconds: from second 40 on.
abbrev made_der : Bytes
made_der = (40 * second) ∷ (100 * second + 13 * day) ∷ []

abbrev made_pair : KeyPair ℕ
made_pair = record { certificate = made_der ∷ []; private_key = 7 }

abbrev made : Files
made = ((cert_path, made_der) ∷ (key_path, 7 ∷ []) ∷ [], [])

load_or_create_self_signed-regenerates_example :
    load_or_create_self_signed crypto disk load (101 * second) generation cert_path key_path [] made
    ≡ create_self_signed crypto disk load generation cert_path key_path [] made
unfolding Dict.lookup text_eq template add_hosts
load_or_create_self_signed-regenerates_example =
    load_or_create_self_signed-regenerates crypto disk load (101 * second) generation cert_path
      key_path [] made generation 1 [] 7 made_pair made_der crypto-IsSound (omega arith)
      (omega arith) refl refl (leaf (config made_pair) made_pair [] made_der [] refl refl)

create_self_signed-stores_example :
    (cert_pem : Bytes) × (key_pem : Bytes) × (generate_self_signed_pem crypto generation []
      ≡ ok (cert_pem, key_pem))
    × (disk.read_file cert_path made ≡ ok cert_pem)
    × (disk.read_file key_path made ≡ ok key_pem)
    × (from_files load cert_path key_path made ≡ ok (config made_pair))
unfolding Dict.lookup Dict.insert text_eq create_self_signed generate_self_signed_pem template
    add_hosts from_files codes
create_self_signed-stores_example =
    create_self_signed-stores crypto disk load disk-IsLawful generation cert_path key_path []
      ([], []) made (config made_pair) (ne_of_text_eq refl) refl
