-- ===== src/Certificates/Laws.antt =====
-- What the source relies on of the packages, as hypotheses.
use quicframe.Prelude.{ℕ, ◌*◌, ◌/◌, ◌≡◌, ◌≢◌, true, some, ok}
use quicframe.Prelude.Text.{Text, Bytes}
use quicframe.Certificates.{second, Template, X509, Crypto, Disk}

-- A certificate holds whole seconds.
abbrev pub whole_seconds : ℕ → ℕ
whole_seconds t = t / second * second

-- What is read back from the certificate made for a template.
abbrev pub issued : Template → X509
issued t = record {
  common_name = t.common_name;
  not_before = whole_seconds t.not_before;
  not_after = whole_seconds t.not_after;
}

-- What was made or marshalled is parsed as such, and PEM keeps the bytes of a block.
pub record IsSound {K : Type 0} (c : Crypto K) : Type 0 where
  pub parse-create :
      (t : Template) (k : K) (der : Bytes)
      → c.create_certificate t k ≡ ok der
      → c.parse_certificate der ≡ ok (issued t)
  pub parse-marshal : (k : K) (der : Bytes) → c.marshal_key k ≡ ok der → c.parse_key der ≡ ok k
  pub decode-encode : (name : Text) (b : Bytes) → c.decode_pem (c.encode_pem name b) ≡ some b

-- A file that was written holds what was written; making a directory and writing another file,
-- successful or not, leave it alone.
pub record IsLawful {W : Type 0} (d : Disk W) : Type 0 where
  pub read-write :
      (p : Text) (b : Bytes) (w w' : W) → d.write_file p b w ≡ (w', ok tt) → d.read_file p w' ≡ ok b
  pub read-write_other :
      (p q : Text) (b : Bytes) (w : W)
      → p ≢ q
      → d.read_file q (d.write_file p b w).0 ≡ d.read_file q w
  pub read-mkdir : (p q : Text) (w : W) → d.read_file q (d.mkdir_all p w).0 ≡ d.read_file q w
  pub exists_of_read : (p : Text) (b : Bytes) (w : W) → d.read_file p w ≡ ok b → d.exists p w ≡ true
