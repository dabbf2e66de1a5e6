-- ===== src/Tlsutil/Creation.antt =====
-- What a new key pair on disk is.
use quicframe.Prelude.{◌≡◌, ◌≢◌, List, Result, ok, ap, ◌∙◌, sym}
use quicframe.Prelude.Text.{Text, Bytes}
use quicframe.Prelude.Effects.{bind_inv, step_inv}
use quicframe.Certificates.{KeyPair, Crypto, Disk}
use quicframe.Certificates.Laws.{IsLawful}
use quicframe.Tlsutil.{
  TlsConfig, Generation, generate_self_signed_pem, from_files, create_self_signed,
}

module _ {K W : Type 0} (c : Crypto K) (d : Disk W) (load : Text → Text → W → Result (KeyPair K))
    (lawful : IsLawful d) where
  -- When a new pair was made with success, the two files hold the certificate and the key that were
  -- generated, and the configuration returned is the one that they load as. They are two files, on a
  -- lawful disk.
  pub create_self_signed-stores :
      (g : Generation K) (cert_file key_file : Text) (hosts : List Text) (w w' : W)
      (cfg : TlsConfig K)
      → key_file ≢ cert_file
      → create_self_signed c d load g cert_file key_file hosts w ≡ (w', ok cfg)
      → (cert_pem : Bytes) × (key_pem : Bytes) × (generate_self_signed_pem c g hosts
          ≡ ok (cert_pem, key_pem))
        × (d.read_file cert_file w' ≡ ok cert_pem)
        × (d.read_file key_file w' ≡ ok key_pem)
        × (from_files load cert_file key_file w' ≡ ok cfg)
  unfolding create_self_signed
  create_self_signed-stores g cert_file key_file hosts w w' cfg apart h =
      let (v, (cert_pem, key_pem), generated, h1) =
        bind_inv (w, generate_self_signed_pem c g hosts) _ h in
      let (v1, _, _, h2) = step_inv _ (d.mkdir_all (d.dir cert_file)) _ v h1 in
      let (v2, _, _, h3) = step_inv _ (d.mkdir_all (d.dir key_file)) _ v1 h2 in
      let (v3, _, cert_written, h4) = step_inv _ (d.write_file cert_file cert_pem) _ v2 h3 in
      let (v4, _, key_written, h5) = step_inv _ (d.write_file key_file key_pem) _ v3 h4 in
      let last : v4 ≡ w' = ap (λ x. x.0) h5 in
      let kept : d.read_file cert_file v4 ≡ d.read_file cert_file v3 =
        ap (d.read_file cert_file) (sym (ap (λ x. x.0) key_written))
        ∙ lawful.read-write_other key_file cert_file key_pem v3 apart in
      (
        cert_pem,
        key_pem,
        ap (λ x. x.1) generated,
        ap (d.read_file cert_file) (sym last)
            ∙ kept
            ∙ lawful.read-write cert_file cert_pem v2 v3 cert_written,
        ap (d.read_file key_file) (sym last) ∙ lawful.read-write key_file key_pem v3 v4 key_written,
        ap (from_files load cert_file key_file) (sym last) ∙ ap (λ x. x.1) h5,
      )
