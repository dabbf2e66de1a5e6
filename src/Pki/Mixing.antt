-- ===== src/Pki/Mixing.antt =====
-- A generation that fails half-way.
use quicframe.Prelude.{
  ℕ, ◌+◌, ◌*◌, ◌<◌, ◌≡◌, ◌≢◌, true, List, some, ok, err, GoError, ap, sym, ◌∙◌, arith,
}
use quicframe.Prelude.Text.{Text, Bytes, codes}
use quicframe.Certificates.{hour, Crypto, Disk}
use quicframe.Certificates.Laws.{whole_seconds, issued, IsSound, IsLawful}
use quicframe.Pki.{
  Manager, Generation, not_before, template, bytes_or_nil, identity, lives_over_a_day, node_dir,
  cert_file, key_file, store_identity, generate_identity, keep_if_fresh, stored, return_or,
  load_or_create_identity,
}
use quicframe.Pki.Storage.{Holds, load_identity-Holds}

module _ {K W : Type 0} (c : Crypto K) (d : Disk W) (m : Manager) (node_id : Text)
    (sound : IsSound c) (lawful : IsLawful d)
    (apart : key_file c d m node_id ≢ cert_file c d m node_id) where
  -- An identity on disk that has more than a day to live is returned, and nothing is written.
  pub load_or_create_identity-Holds :
      (now : ℕ) (g : Generation K) (hosts names : List Text) (made : Generation K) (serial : ℕ)
      (w : W) (cert_der key_der : Bytes) (signer priv : K)
      → c.create_certificate (template serial made node_id names) signer ≡ ok cert_der
      → c.marshal_key priv ≡ ok key_der
      → Holds c d m node_id w cert_der priv
      → now + 24 * hour < whole_seconds (not_before made + 13 * (24 * hour))
      → load_or_create_identity c d m node_id now g hosts w
        ≡ (w, ok (identity c d m node_id (some (issued (template serial made node_id names))) priv))
  unfolding load_or_create_identity return_or stored keep_if_fresh
  load_or_create_identity-Holds now g hosts names made serial w cert_der key_der signer priv created
        marshalled holds fresh =
      let x = issued (template serial made node_id names) in
      let parsed =
        sound.parse-create (template serial made node_id names) signer cert_der created in
      let loads =
        load_identity-Holds c d m node_id w cert_der key_der priv x sound holds parsed marshalled in
      let cert_there = lawful.exists_of_read (cert_file c d m node_id) _ w holds.cert in
      let key_there = lawful.exists_of_read (key_file c d m node_id) _ w holds.key in
      let long : lives_over_a_day now x ≡ true = ground (arith, fresh) in
      let found : stored c d m node_id now w ≡ some (identity c d m node_id (some x) priv) =
        rw (cert_there, key_there) (ap (keep_if_fresh c d m node_id now) loads ∙ rw long) in
      ap (λ o. return_or c d m node_id o (generate_identity c d m node_id g hosts) w) found

  -- When the certificate of a new identity was written and the key was not, GenerateIdentity reports
  -- the error, but the next call of LoadOrCreateIdentity returns the new certificate with the old
  -- key that is still on disk, whatever key the certificate was made for. The failed write left the
  -- old key's file alone, and the new certificate has more than a day to live at the next call. The
  -- packages are sound, the disk is lawful, and certificate and key are two files.
  pub load_or_create_identity-mixes :
      (g g' : Generation K) (hosts names : List Text) (now serial : ℕ) (w w1 w2 w3 : W)
      (e : GoError) (priv old : K) (cert_der old_der : Bytes)
      → g.draw.key ≡ ok priv
      → g.draw.serial ≡ ok serial
      → c.create_certificate (template serial g node_id hosts) priv ≡ ok cert_der
      → c.marshal_key old ≡ ok old_der
      → d.read_file (key_file c d m node_id) w ≡ ok (c.encode_pem (codes "EC PRIVATE KEY") old_der)
      → d.mkdir_all (node_dir c d m node_id) w ≡ (w1, ok tt)
      → d.write_file (cert_file c d m node_id) (c.encode_pem (codes "CERTIFICATE") cert_der) w1
        ≡ (w2, ok tt)
      → d.write_file
          (key_file c d m node_id)
          (c.encode_pem (codes "EC PRIVATE KEY") (bytes_or_nil (c.marshal_key priv)))
          w2
        ≡ (w3, err e)
      → d.read_file (key_file c d m node_id) w3 ≡ d.read_file (key_file c d m node_id) w2
      → now + 24 * hour < whole_seconds (not_before g + 13 * (24 * hour))
      → (generate_identity c d m node_id g hosts w ≡ (w3, err e))
        × (load_or_create_identity c d m node_id now g' names w3 ≡ (
          w3,
          ok (identity c d m node_id (some (issued (template serial g node_id hosts))) old),
        ))
  unfolding generate_identity store_identity
  load_or_create_identity-mixes g g' hosts names now serial w w1 w2 w3 e priv old cert_der old_der
        drawn numbered created marshalled old_there made_dir cert_written key_failed kept fresh =
      let cert_at = cert_file c d m node_id in
      let key_at = key_file c d m node_id in
      let key_now : d.read_file key_at w3 ≡ d.read_file key_at w =
        kept
        ∙ (ap (d.read_file key_at) (sym (ap (λ x. x.0) cert_written))
            ∙ (lawful.read-write_other cert_at key_at _ w1 (λ same. apart (sym same))
                ∙ (ap (d.read_file key_at) (sym (ap (λ x. x.0) made_dir))
                    ∙ lawful.read-mkdir (node_dir c d m node_id) key_at w))) in
      let cert_now =
        ap (d.read_file cert_at) (sym (ap (λ x. x.0) key_failed))
        ∙ (lawful.read-write_other key_at cert_at _ w2 apart
            ∙ lawful.read-write cert_at _ w1 w2 cert_written) in
      let holds : Holds c d m node_id w3 cert_der old = record {
        cert = cert_now;
        key =
            key_now
            ∙ (old_there
                ∙ ap (λ r. ok (c.encode_pem (codes "EC PRIVATE KEY") (bytes_or_nil r)))
                    (sym marshalled));
      } in
      (
        rw (drawn, numbered, created, made_dir, cert_written, key_failed),
        load_or_create_identity-Holds now g' names hosts g serial w3 cert_der old_der priv old
            created marshalled holds fresh,
      )
