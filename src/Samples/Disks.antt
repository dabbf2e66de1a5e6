-- ===== src/Samples/Disks.antt =====
-- A small concrete certificate format and disk, for tests and examples.
use quicframe.Prelude.{
  ℕ, ◌≡◌, ◌≢◌, refl, Bool, true, false, List, [], ◌∷◌, ◌++◌, Option, none, some, Result, ok, err,
  new, ok_injective, subst, ap, ◌∙◌,
}
use quicframe.Prelude.Text.{Text, Bytes, codes, text_eq-ne}
use quicframe.Prelude.Dict
use quicframe.Certificates.{X509, KeyPair, Crypto, Disk, Draw}
use quicframe.Certificates.Laws.{whole_seconds, issued, IsSound, IsLawful}

-- A certificate is its two times in front of its common name, a key is its number.
abbrev parse : Bytes → Result X509
parse (a ∷ b ∷ name) = ok (record { common_name = name; not_before = a; not_after = b })
parse _ = err (new (codes "malformed certificate"))

abbrev key_of : Bytes → Result ℕ
key_of [] = err (new (codes "malformed key"))
key_of (k ∷ _) = ok k

abbrev pair_of : Bytes → Result ℕ → Result (KeyPair ℕ)
pair_of der (ok k) = ok (record { certificate = der ∷ []; private_key = k })
pair_of der (err e) = err e

abbrev pub crypto : Crypto ℕ
crypto = record {
  create_certificate =
      λ t k. ok (whole_seconds t.not_before ∷ whole_seconds t.not_after ∷ t.common_name);
  parse_certificate = parse;
  marshal_key = λ k. ok (k ∷ []);
  parse_key = key_of;
  encode_pem = λ name b. b;
  decode_pem = λ b. some b;
  key_pair = λ cert key. pair_of cert (key_of key);
  parse_ip = λ h. none;
  sha256 = λ b. b;
}

pub crypto-IsSound : IsSound crypto
crypto-IsSound = record {
  parse-create = λ t k der h. subst (λ x. parse x ≡ ok (issued t)) (ok_injective h) refl;
  parse-marshal = λ k der h. subst (λ x. key_of x ≡ ok k) (ok_injective h) refl;
  decode-encode = λ name b. refl;
}

-- The files, and which of the coming writes fail.
abbrev pub Files : Type 0
Files = List (Text × Bytes) × List Bool

abbrev read : Option Bytes → Result Bytes
read (some b) = ok b
read none = err (new (codes "no such file"))

abbrev is_some : Option Bytes → Bool
is_some none = false
is_some (some _) = true

abbrev write : Text → Bytes → List Bool → List (Text × Bytes) → Files × Result (Unit {0})
write p b [] fs = ((Dict.insert p b fs, []), ok tt)
write p b (true ∷ rest) fs = ((fs, rest), err (new (codes "disk full")))
write p b (false ∷ rest) fs = ((Dict.insert p b fs, rest), ok tt)

abbrev join : List Text → Text
join [] = []
join (p ∷ ps) = b'/' ∷ p ++ join ps

abbrev pub disk : Disk Files
disk = record {
  exists = λ p w. is_some (Dict.lookup p w.0);
  read_file = λ p w. read (Dict.lookup p w.0);
  mkdir_all = λ p w. (w, ok tt);
  write_file = λ p b w. write p b w.1 w.0;
  dir = λ p. p;
  join = join;
}

write_reads :
    (p : Text) (b : Bytes) (faults : List Bool) (fs : List (Text × Bytes)) (w' : Files)
    → write p b faults fs ≡ (w', ok tt)
    → read (Dict.lookup p w'.0) ≡ ok b
write_reads p b [] fs w' h =
    subst (λ (w : Files). read (Dict.lookup p w.0) ≡ ok b) (ap (λ x. x.0) h)
      (ap read (Dict.lookup-insert_self p b fs))
write_reads p b (true ∷ rest) fs w' h = let bad : err _ ≡ ok _ = ap (λ x. x.1) h in cc
write_reads p b (false ∷ rest) fs w' h =
    subst (λ (w : Files). read (Dict.lookup p w.0) ≡ ok b) (ap (λ x. x.0) h)
      (ap read (Dict.lookup-insert_self p b fs))

write_keeps :
    (p q : Text) (b : Bytes) (faults : List Bool) (fs : List (Text × Bytes))
    → p ≢ q
    → read (Dict.lookup q (write p b faults fs).0.0) ≡ read (Dict.lookup q fs)
write_keeps p q b [] fs ne = ap read (Dict.lookup-insert p q b fs ∙ rw (text_eq-ne ne))
write_keeps p q b (true ∷ rest) fs ne = refl
write_keeps p q b (false ∷ rest) fs ne = ap read (Dict.lookup-insert p q b fs ∙ rw (text_eq-ne ne))

read_exists : (o : Option Bytes) (b : Bytes) → read o ≡ ok b → is_some o ≡ true
read_exists none b h = cc
read_exists (some _) b h = refl

pub disk-IsLawful : IsLawful disk
disk-IsLawful = record {
  read-write = λ p b w w' h. write_reads p b w.1 w.0 w' h;
  read-write_other = λ p q b w ne. write_keeps p q b w.1 w.0 ne;
  read-mkdir = λ p q w. refl;
  exists_of_read = λ p b w h. read_exists (Dict.lookup p w.0) b h;
}

-- The two files, read and parsed together.
abbrev load_of : Result Bytes → Result Bytes → Result (KeyPair ℕ)
load_of (ok cert) (ok key) = crypto.key_pair cert key
load_of (ok cert) (err e) = err e
load_of (err e) _ = err e

abbrev pub load : Text → Text → Files → Result (KeyPair ℕ)
load cert_file key_file w = load_of (disk.read_file cert_file w) (disk.read_file key_file w)

abbrev pub draw : ℕ → Draw ℕ
draw k = record { key = ok k; serial = ok 1 }
