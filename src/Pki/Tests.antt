-- ===== src/Pki/Tests.antt =====
-- The theorems on identities at concrete inputs.
use quicframe.Prelude.{
  ℕ, suc, ◌+◌, ◌*◌, ◌<◌, ◌≡◌, ◌≢◌, refl, true, false, [], ◌∷◌, some, ok, err, new, arith,
}
use quicframe.Prelude.Text.{Text, Bytes, codes, text_eq, ne_of_text_eq}
use quicframe.Prelude.Dict
use quicframe.Certificates.{second, hour, day, X509}
use quicframe.Pki.{
  Identity, Manager, Generation, identity, cert_file, key_file, decode_identity, load_identity,
  store_identity, generate_identity, load_or_create_identity,
}
use quicframe.Pki.Storage.{load_identity-generate_identity}
use quicframe.Pki.Rotation.{
  LivesFrom, load_or_create_identity-LivesFrom, Watched, start, Watched-unexpired,
}
use quicframe.Pki.Mixing.{load_or_create_identity-mixes}
use quicframe.Samples.Disks.{crypto, crypto-IsSound, disk, disk-IsLawful, draw, Files}

abbrev manager : Manager
manager = record { base_dir = b'd' ∷ [] }

abbrev node : Text
node = b'n' ∷ []

abbrev generation : ℕ → Generation ℕ
generation k = record { now = 100 * second; draw = draw k }

-- The identity that is made at 100 seconds, and its files.
abbrev made_x : X509
made_x = record { common_name = node; not_before = 40 * second; not_after = 40 * second + 13 * day }

abbrev made_der : Bytes
made_der = (40 * second) ∷ (40 * second + 13 * day) ∷ node

abbrev made_identity : ℕ → Identity ℕ
made_identity k = identity crypto disk manager node (some made_x) k

abbrev cert_path : Text
cert_path = cert_file crypto disk manager node

abbrev key_path : Text
key_path = key_file crypto disk manager node

abbrev made : Files
made = ((cert_path, made_der) ∷ (key_path, 7 ∷ []) ∷ [], [])

apart : key_path ≢ cert_path
unfolding text_eq codes
apart = ne_of_text_eq refl

generates :
    generate_identity crypto disk manager node (generation 7) [] ([], [])
    ≡ (made, ok (made_identity 7))
unfolding generate_identity store_identity Dict.insert text_eq codes
generates = refl

load_identity-generate_identity_example :
    load_identity crypto disk manager node made ≡ ok (made_identity 7)
load_identity-generate_identity_example =
    load_identity-generate_identity crypto disk manager node (generation 7) [] ([], []) made
      (made_identity 7) (7 ∷ []) crypto-IsSound disk-IsLawful apart refl generates

load_or_create_identity-LivesFrom_example : LivesFrom (made_identity 7) (suc (90 * second))
unfolding load_or_create_identity Dict.lookup Dict.insert text_eq codes
load_or_create_identity-LivesFrom_example =
    load_or_create_identity-LivesFrom crypto disk manager node crypto-IsSound disk-IsLawful apart
      (90 * second) (generation 7) [] ([], []) made (made_identity 7) (omega arith) refl

-- One tick after 23 hours keeps the identity.
abbrev tick_time : ℕ
tick_time = 100 * second + 23 * hour

abbrev later_generation : Generation ℕ
later_generation = record { now = tick_time; draw = draw 9 }

lives : LivesFrom (made_identity 7) (100 * second)
lives = record { x = made_x; cert = refl; lives = omega arith }

loads : load_identity crypto disk manager node made ≡ ok (made_identity 7)
unfolding load_identity decode_identity Dict.lookup text_eq codes
loads = refl

watched :
    Watched crypto disk manager node crypto-IsSound disk-IsLawful apart
      (23 * hour)
      (100 * second)
      made
watched = start (made_identity 7) loads lives

Watched-unexpired_example :
    (id : Identity ℕ) × (x : X509) × (load_identity crypto disk manager node made ≡ ok id)
    × (id.cert ≡ some x)
    × (tick_time < x.not_after)
Watched-unexpired_example =
    Watched-unexpired crypto disk manager node crypto-IsSound disk-IsLawful apart (23 * hour)
      tick_time (omega arith) watched (omega arith)

-- The disk with an older key, on which the second write fails.
abbrev old_disk : Files
old_disk = ((key_path, 5 ∷ []) ∷ [], false ∷ true ∷ [])

abbrev mixed : Files
mixed = ((key_path, 5 ∷ []) ∷ (cert_path, made_der) ∷ [], [])

load_or_create_identity-mixes_example :
    (generate_identity crypto disk manager node (generation 7) [] old_disk
      ≡ (mixed, err (new (codes "disk full"))))
    × (load_or_create_identity crypto disk manager node (200 * second) (generation 8) [] mixed
        ≡ (mixed, ok (made_identity 5)))
unfolding Dict.lookup Dict.insert text_eq codes
load_or_create_identity-mixes_example =
    load_or_create_identity-mixes crypto disk manager node crypto-IsSound disk-IsLawful apart
      (generation 7) (generation 8) [] [] (200 * second) 1 old_disk old_disk
      (((key_path, 5 ∷ []) ∷ (cert_path, made_der) ∷ [], true ∷ [])) mixed (new (codes "disk full"))
      7 5 made_der (5 ∷ []) refl refl refl refl refl refl refl refl refl (omega arith)
