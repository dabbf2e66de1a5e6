-- ===== src/Middleware/Auth/Mtls.antt =====
-- Which connections the certificate middleware lets through.
use quicframe.Prelude.{◌≡◌, ◌≢◌, refl, Bool, List, [], ◌∷◌, ◌⊎◌, inl, inr, ap, if◌then◌else◌}
use quicframe.Prelude.Text.{Text, codes, is_empty, is_empty-ne, Text-cases}
use quicframe.Protocol.Types.{text}
use quicframe.Protocol.Codec.{Msgpack}
use quicframe.Framework.Context.{Certificate}
use quicframe.Framework.Handler.{Run, Exit, HandlerFunc}
use quicframe.Middleware.Auth.{unauthorized, with_local, mtls_auth, check_certificates}

abbrev head_name : List Certificate → Text
head_name [] = []
head_name (cert ∷ _) = cert.common_name

-- The identity that the middleware uses: the common name of the first certificate, empty if there
-- is none.
abbrev pub peer_identity : {H : Type 0} → Run H → Text
peer_identity r = head_name r.ctx.conn.peer_certificates

module _ {H : Type 0} (mp : Msgpack) where
  abbrev branch : List Certificate → HandlerFunc H → Run H → Bool → Run H × Exit
  branch certs next r b =
      if b
      then unauthorized mp (codes "mTLS: identity missing in certificate") r
      else next (with_local (codes "node_id") (text (head_name certs)) r)

  check_certificates-admits :
      (certs : List Certificate) (next : HandlerFunc H) (r : Run H)
      → head_name certs ≢ []
      → check_certificates mp certs next r
        ≡ next (with_local (codes "node_id") (text (head_name certs)) r)
  unfolding check_certificates
  check_certificates-admits [] next r h = absurd (h refl)
  check_certificates-admits (cert ∷ certs) next r h =
      ap (branch (cert ∷ certs) next r) (is_empty-ne h)

  check_certificates-refuses :
      (certs : List Certificate) (next : HandlerFunc H) (r : Run H)
      → head_name certs ≡ []
      → (m : Text) × (check_certificates mp certs next r ≡ unauthorized mp m r)
  unfolding check_certificates
  check_certificates-refuses [] next r h = (_, refl)
  check_certificates-refuses (cert ∷ certs) next r h =
      (_, ap (branch (cert ∷ certs) next r) (ap is_empty h))

  -- A connection is admitted exactly when its first certificate has a common name, which becomes
  -- the local "node_id"; no other part of the certificates is looked at. Otherwise the result is
  -- that of an error reply with code 401, and `next` does not run.
  pub mtls_auth-decides :
      (next : HandlerFunc H) (r : Run H)
      → ((peer_identity r ≢ [])
          × (mtls_auth mp next r ≡ next (with_local (codes "node_id") (text (peer_identity r)) r)))
        ⊎ ((peer_identity r ≡ []) × ((m : Text) × (mtls_auth mp next r ≡ unauthorized mp m r)))
  unfolding mtls_auth
  mtls_auth-decides next r = elim (Text-cases (peer_identity r)) [
    | inl none_there ↦
        inr (none_there, check_certificates-refuses r.ctx.conn.peer_certificates next r none_there)
    | inr there ↦ inl (there, check_certificates-admits r.ctx.conn.peer_certificates next r there)
  ]
