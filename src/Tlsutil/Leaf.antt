-- ===== src/Tlsutil/Leaf.antt =====
-- The check of a leaf for WebTransport, and the certificates that this code makes.
use quicframe.Prelude.{
  ℕ, ◌+◌, ◌-◌, ◌*◌, ◌≤◌, ◌<◌, ◌≡◌, ◌↔◌, refl, true, false, List, [], ◌∷◌, Option, none, some, ok,
  ok_injective, ap, ◌∙◌, arith,
}
use quicframe.Prelude.Text.{Text, Bytes}
use quicframe.Prelude.Effects.{wrap_err, and_then_inv, wrap_err_inv}
use quicframe.Certificates.{second, Template, X509, KeyPair, Crypto}
use quicframe.Certificates.Laws.{issued}
use quicframe.Tlsutil.{
  web_transport_dev_cert_validity, TlsConfig, Generation, first_of, leaf_bytes, base_template,
  add_host, add_hosts, template, is_compatible, web_transport_compatible_leaf,
}

is_compatible_iff :
    (now : ℕ) (leaf : X509)
    → (is_compatible now leaf ≡ true) ↔ (
        (leaf.not_after ≤ leaf.not_before + web_transport_dev_cert_validity)
        × (leaf.not_before ≤ now)
        × (now < leaf.not_after))
is_compatible_iff now leaf = (λ h. ground arith, λ h. ground arith)

-- The leaf of a configuration: the first certificate of the first chain.
pub data HasLeaf {K : Type 0} : Option (TlsConfig K) → Bytes → Type 0 where
  leaf :
      (cfg : TlsConfig K) (pair : KeyPair K) (pairs : List (KeyPair K)) (der : Bytes)
      (ders : List Bytes)
      → cfg.certificates ≡ pair ∷ pairs
      → pair.certificate ≡ der ∷ ders
      → HasLeaf (some cfg) der

first_of_inv :
    {A : Type 0} (message : Text) (l : List A) {a : A}
    → first_of message l ≡ ok a
    → (rest : List A) × (l ≡ a ∷ rest)
unfolding first_of
first_of_inv message [] h = cc
first_of_inv message (x ∷ rest) h = (rest, ap (λ y. y ∷ rest) (ok_injective h))

leaf_bytes-HasLeaf :
    {K : Type 0} {cfg : Option (TlsConfig K)} {der : Bytes}
    → HasLeaf cfg der
    → leaf_bytes cfg ≡ ok der
unfolding leaf_bytes first_of
leaf_bytes-HasLeaf (leaf cfg pair pairs der ders e f) = rw (e, f)

leaf_bytes_inv :
    {K : Type 0} (cfg : Option (TlsConfig K)) {der : Bytes}
    → leaf_bytes cfg ≡ ok der
    → HasLeaf cfg der
unfolding leaf_bytes
leaf_bytes_inv none h = cc
leaf_bytes_inv (some cfg) {der} h =
    let (pair, some_pair, h') = and_then_inv (first_of _ cfg.certificates) _ h in
    let (pairs, e) = first_of_inv _ cfg.certificates some_pair in
    let (ders, f) = first_of_inv _ pair.certificate h' in leaf cfg pair pairs der ders e f

-- Two templates with the same times.
abbrev SameTimes : Template → Template → Type 0
SameTimes t u = (t.not_before ≡ u.not_before) × (t.not_after ≡ u.not_after)

add_host-SameTimes : (ip : Option Bytes) (h : Text) (t : Template) → SameTimes (add_host ip h t) t
unfolding add_host
add_host-SameTimes (some ip) h t = (refl, refl)
add_host-SameTimes none h t = (refl, refl)

module _ {K : Type 0} (c : Crypto K) where
  add_hosts-SameTimes : (hosts : List Text) (t : Template) → SameTimes (add_hosts c hosts t) t
  unfolding add_hosts
  add_hosts-SameTimes [] t = (refl, refl)
  add_hosts-SameTimes (h ∷ hs) t =
      let (before, after) = add_hosts-SameTimes hs (add_host (c.parse_ip h) h t) in
      let (before', after') = add_host-SameTimes (c.parse_ip h) h t in
      (before ∙ before', after ∙ after')

  pub template_times :
      (serial : ℕ) (g : Generation K) (hosts : List Text)
      → ((template c serial g hosts).not_before ≡ g.first_now - 60 * second)
        × ((template c serial g hosts).not_after ≡ g.second_now + web_transport_dev_cert_validity)
  unfolding template
  template_times serial g hosts = add_hosts-SameTimes hosts (base_template serial g)

  -- Whatever the time, the check refuses each certificate that this code has made: its validity is
  -- a minute longer than what is accepted. The clock did not go back between the two readings.
  pub not_compatible-issued :
      (now serial : ℕ) (g : Generation K) (hosts : List Text)
      → 60 * second ≤ g.first_now
      → g.first_now ≤ g.second_now
      → is_compatible now (issued (template c serial g hosts)) ≡ false
  not_compatible-issued now serial g hosts early ordered =
      let (before, after) = template_times serial g hosts in
      ground (arith, early, ordered, before, after)

  pub web_transport_compatible_leaf-parsed :
      (now : ℕ) {cfg : Option (TlsConfig K)} {der : Bytes} {x : X509}
      → HasLeaf cfg der
      → c.parse_certificate der ≡ ok x
      → web_transport_compatible_leaf c now cfg ≡ ok (is_compatible now x)
  unfolding web_transport_compatible_leaf
  web_transport_compatible_leaf-parsed now is_leaf parsed = rw (leaf_bytes-HasLeaf is_leaf, parsed)

  -- The check accepts a configuration exactly when it has a leaf that parses, that is valid for at
  -- most 13 days in all, and that is valid now: from its first moment on, before its last.
  pub web_transport_compatible_leaf_iff :
      (now : ℕ) (cfg : Option (TlsConfig K))
      → (web_transport_compatible_leaf c now cfg ≡ ok true) ↔ (
          (der : Bytes) × (x : X509) × HasLeaf cfg der
          × (c.parse_certificate der ≡ ok x)
          × (x.not_after ≤ x.not_before + web_transport_dev_cert_validity)
          × (x.not_before ≤ now)
          × (now < x.not_after))
  unfolding web_transport_compatible_leaf
  web_transport_compatible_leaf_iff now cfg = (
    (λ h.
        let (der, is_leaf, h') = and_then_inv (leaf_bytes cfg) _ h in
        let (x, parsed, h'') = and_then_inv (wrap_err _ (c.parse_certificate der)) _ h' in
        let (short, begun, going) = (is_compatible_iff now x).0 (ok_injective h'') in
        (
          der,
          x,
          leaf_bytes_inv cfg is_leaf,
          wrap_err_inv _ (c.parse_certificate der) parsed,
          short,
          begun,
          going,
        )),
    (λ (der, x, is_leaf, parsed, short, begun, going).
        web_transport_compatible_leaf-parsed now is_leaf parsed
        ∙ ap ok ((is_compatible_iff now x).1 (short, begun, going))),
  )
