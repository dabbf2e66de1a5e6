-- ===== src/Tlsutil/Reuse.antt =====
-- Which key pairs on disk are used again.
use quicframe.Prelude.{
  ℕ, ◌+◌, ◌*◌, ◌≤◌, ◌<◌, ◌≡◌, Bool, true, false, List, none, some, Result, ok, ap, ◌∙◌, inl, inr,
  Bool-cases,
}
use quicframe.Prelude.Text.{Text, Bytes, codes}
use quicframe.Prelude.Effects.{wrap_err}
use quicframe.Certificates.{second, X509, KeyPair, Crypto, Disk}
use quicframe.Certificates.Laws.{IsSound}
use quicframe.Tlsutil.{
  web_transport_dev_cert_validity, Generation, template, config, web_transport_compatible_leaf,
  from_files, accept, reusable, judge, return_or, map_ok, create_self_signed,
  load_or_create_self_signed,
}
use quicframe.Tlsutil.Leaf.{
  HasLeaf, web_transport_compatible_leaf-parsed, not_compatible-issued,
  web_transport_compatible_leaf_iff,
}

module _ {K W : Type 0} (c : Crypto K) (d : Disk W) (load : Text → Text → W → Result (KeyPair K))
    (now : ℕ) (g : Generation K) (cert_file key_file : Text) (hosts : List Text) (w : W) where
  accept-loaded :
      (pair : KeyPair K) {answer : Bool}
      → load cert_file key_file w ≡ ok pair
      → web_transport_compatible_leaf c now (some (config pair)) ≡ ok answer
      → accept c now (from_files load cert_file key_file w) ≡ judge (config pair) (ok answer)
  unfolding accept from_files
  accept-loaded pair loads answers =
      ap (λ r. accept c now (map_ok config (wrap_err (codes "tlsutil: load key pair: ") r))) loads
      ∙ ap (judge (config pair)) answers

  reusable-loaded :
      (pair : KeyPair K)
      → load cert_file key_file w ≡ ok pair
      → web_transport_compatible_leaf c now (some (config pair)) ≡ ok true
      → d.exists cert_file w ≡ true
      → d.exists key_file w ≡ true
      → reusable c d load now cert_file key_file w ≡ some (config pair)
  unfolding reusable judge
  reusable-loaded pair loads good cert key = rw (cert, key) (accept-loaded pair loads good)

  reusable-refused :
      (pair : KeyPair K)
      → load cert_file key_file w ≡ ok pair
      → web_transport_compatible_leaf c now (some (config pair)) ≡ ok false
      → reusable c d load now cert_file key_file w ≡ none
  unfolding reusable judge
  reusable-refused pair loads refused = elim (Bool-cases (d.exists cert_file w)) [
    | inl e ↦ elim (Bool-cases (d.exists key_file w)) [
      | inl f ↦ rw (e, f) (accept-loaded pair loads refused)
      | inr f ↦ rw (e, f)
    ]
    | inr e ↦ rw e
  ]

  -- A key pair that is on disk, loads, and whose leaf parses, is valid for at most 13 days and valid
  -- now, is returned as it is, with TLS 1.3, and nothing is written.
  pub load_or_create_self_signed-reuses :
      (pair : KeyPair K) (der : Bytes) (x : X509)
      → d.exists cert_file w ≡ true
      → d.exists key_file w ≡ true
      → load cert_file key_file w ≡ ok pair
      → HasLeaf (some (config pair)) der
      → c.parse_certificate der ≡ ok x
      → x.not_after ≤ x.not_before + web_transport_dev_cert_validity
      → x.not_before ≤ now
      → now < x.not_after
      → load_or_create_self_signed c d load now g cert_file key_file hosts w ≡ (w, ok (config pair))
  unfolding load_or_create_self_signed return_or
  load_or_create_self_signed-reuses pair der x cert key loads is_leaf parsed short begun going =
      let good =
        (web_transport_compatible_leaf_iff c now (some (config pair))).1
          (der, x, is_leaf, parsed, short, begun, going) in
      ap (λ o. return_or o (create_self_signed c d load g cert_file key_file hosts) w)
        (reusable-loaded pair loads good cert key)

  -- A key pair that this code has made before is not used again, whatever the time: with such a pair
  -- on disk, every call makes a new one. The leaf that loads is the certificate that was made, the x509 package
  -- is sound, and the clock did not go back while the pair was made.
  pub load_or_create_self_signed-regenerates :
      (made : Generation K) (serial : ℕ) (names : List Text) (k : K) (pair : KeyPair K)
      (der : Bytes)
      → IsSound c
      → 60 * second ≤ made.first_now
      → made.first_now ≤ made.second_now
      → c.create_certificate (template c serial made names) k ≡ ok der
      → load cert_file key_file w ≡ ok pair
      → HasLeaf (some (config pair)) der
      → load_or_create_self_signed c d load now g cert_file key_file hosts w
        ≡ create_self_signed c d load g cert_file key_file hosts w
  unfolding load_or_create_self_signed return_or
  load_or_create_self_signed-regenerates made serial names k pair der sound early ordered created
        loads is_leaf =
      let parsed = sound.parse-create (template c serial made names) k der created in
      let refused =
        web_transport_compatible_leaf-parsed c now is_leaf parsed
        ∙ ap ok (not_compatible-issued c now serial made names early ordered) in
      ap (λ o. return_or o (create_self_signed c d load g cert_file key_file hosts) w)
        (reusable-refused pair loads refused)
