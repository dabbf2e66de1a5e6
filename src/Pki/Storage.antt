-- ===== src/Pki/Storage.antt =====
-- What a generated identity leaves on disk.
use quicframe.Prelude.{ℕ, ◌≡◌, ◌≢◌, List, some, ok, ok_injective, ap, sym, ◌∙◌}
use quicframe.Prelude.Text.{Text, Bytes, codes}
use quicframe.Prelude.Effects.{bind_inv, step_inv, wrap_err, wrap_err_inv}
use quicframe.Certificates.{X509, Crypto, Disk}
use quicframe.Certificates.Laws.{issued, IsSound, IsLawful}
use quicframe.Pki.{
  Identity, Manager, Generation, template, or_nil, bytes_or_nil, cert_file, key_file, node_dir,
  identity, decode_identity, load_identity, store_identity, generate_identity,
}

module _ {K W : Type 0} (c : Crypto K) (d : Disk W) (m : Manager) (node_id : Text) where
  -- The two files of a certificate and a key.
  pub record Holds (w : W) (cert_der : Bytes) (priv : K) : Type 0 where
    pub cert :
        d.read_file (cert_file c d m node_id) w ≡ ok (c.encode_pem (codes "CERTIFICATE") cert_der)
    pub key :
        d.read_file (key_file c d m node_id) w
        ≡ ok (c.encode_pem (codes "EC PRIVATE KEY") (bytes_or_nil (c.marshal_key priv)))

  -- What a generation that succeeded did.
  pub record Generated (g : Generation K) (hosts : List Text) (w' : W) (id : Identity K)
      : Type 0 where
    pub priv : K
    pub serial : ℕ
    pub cert_der : Bytes
    pub created : c.create_certificate (template serial g node_id hosts) priv ≡ ok cert_der
    pub holds : Holds w' cert_der priv
    pub result : id ≡ identity c d m node_id (or_nil (c.parse_certificate cert_der)) priv

  store_identity_inv :
      (priv : K) (cert_der : Bytes) (w w' : W) (id : Identity K)
      → IsLawful d
      → key_file c d m node_id ≢ cert_file c d m node_id
      → store_identity c d m node_id priv cert_der w ≡ (w', ok id)
      → Holds w' cert_der priv
        × (id ≡ identity c d m node_id (or_nil (c.parse_certificate cert_der)) priv)
  unfolding store_identity
  store_identity_inv priv cert_der w w' id lawful apart h =
      let cert_at = cert_file c d m node_id in
      let key_at = key_file c d m node_id in
      let (v1, _, _, h2) = step_inv _ (d.mkdir_all (node_dir c d m node_id)) _ w h in
      let (v2, _, cert_written, h3) = bind_inv (d.write_file cert_at _ v1) _ h2 in
      let (v3, _, key_written, h4) = bind_inv (d.write_file key_at _ v2) _ h3 in
      let last : v3 ≡ w' = ap (λ x. x.0) h4 in
      let kept : d.read_file cert_at v3 ≡ d.read_file cert_at v2 =
        ap (d.read_file cert_at) (sym (ap (λ x. x.0) key_written))
        ∙ lawful.read-write_other key_at cert_at _ v2 apart in
      (
        record {
          cert =
              ap (d.read_file cert_at) (sym last)
              ∙ (kept ∙ lawful.read-write cert_at _ v1 v2 cert_written);
          key = ap (d.read_file key_at) (sym last) ∙ lawful.read-write key_at _ v2 v3 key_written;
        },
        sym (ok_injective (ap (λ x. x.1) h4)),
      )

  pub generate_identity_inv :
      (g : Generation K) (hosts : List Text) (w w' : W) (id : Identity K)
      → IsLawful d
      → key_file c d m node_id ≢ cert_file c d m node_id
      → generate_identity c d m node_id g hosts w ≡ (w', ok id)
      → Generated g hosts w' id
  unfolding generate_identity
  generate_identity_inv g hosts w w' id lawful apart h =
      let (v1, priv, e1, h1) = bind_inv (w, wrap_err _ g.draw.key) _ h in
      let (v2, serial, e2, h2) = bind_inv (v1, wrap_err _ g.draw.serial) _ h1 in
      let (v3, cert_der, e3, h3) =
        bind_inv (v2, wrap_err _ (c.create_certificate (template serial g node_id hosts) priv)) _
          h2 in
      let (holds, result) = store_identity_inv priv cert_der v3 w' id lawful apart h3 in
      record {
        priv = priv;
        serial = serial;
        cert_der = cert_der;
        created = wrap_err_inv _ _ (ap (λ x. x.1) e3);
        holds = holds;
        result = result;
      }

  -- Files of a certificate and a key that were made load as them.
  pub load_identity-Holds :
      (w : W) (cert_der key_der : Bytes) (priv : K) (x : X509)
      → IsSound c
      → Holds w cert_der priv
      → c.parse_certificate cert_der ≡ ok x
      → c.marshal_key priv ≡ ok key_der
      → load_identity c d m node_id w ≡ ok (identity c d m node_id (some x) priv)
  unfolding load_identity decode_identity
  load_identity-Holds w cert_der key_der priv x sound holds parsed marshalled =
      let key_block = sound.decode-encode (codes "EC PRIVATE KEY") key_der in
      rw (
        holds.cert,
        holds.key,
        sound.decode-encode,
        parsed,
        marshalled,
        key_block,
        sound.parse-marshal priv key_der marshalled,
      )

  -- A generated identity is loaded back as it was returned: same certificate, same key. The key
  -- marshals, certificate and key are two files, the packages are sound and the disk is lawful.
  pub load_identity-generate_identity :
      (g : Generation K) (hosts : List Text) (w w' : W) (id : Identity K) (key_der : Bytes)
      → IsSound c
      → IsLawful d
      → key_file c d m node_id ≢ cert_file c d m node_id
      → c.marshal_key id.private_key ≡ ok key_der
      → generate_identity c d m node_id g hosts w ≡ (w', ok id)
      → load_identity c d m node_id w' ≡ ok id
  load_identity-generate_identity g hosts w w' id key_der sound lawful apart marshalled h =
      let made = generate_identity_inv g hosts w w' id lawful apart h in
      let parsed =
        sound.parse-create (template made.serial g node_id hosts) made.priv made.cert_der
          made.created in
      let same : id
          ≡ identity c d m node_id (some (issued (template made.serial g node_id hosts)))
              made.priv =
        made.result ∙ ap (λ r. identity c d m node_id (or_nil r) made.priv) parsed in
      let marshalled' : c.marshal_key made.priv ≡ ok key_der =
        ap (λ i. c.marshal_key i.private_key) (sym same) ∙ marshalled in
      load_identity-Holds w' made.cert_der key_der made.priv _ sound made.holds parsed marshalled'
      ∙ ap ok (sym same)
