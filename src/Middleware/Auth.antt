-- ===== src/Middleware/Auth.antt =====
-- middleware/auth.go. Parsing and verifying a token is the third-party jwt package's work.
pub mod Outcome
pub mod Jwt
pub mod Mtls
use quicframe.Prelude.{
  ℕ, Bool, true, false, List, [], ◌∷◌, ◌++◌, Option, none, some, Result, ok, err, GoError, new,
  if◌then◌else◌, drop, length, not,
}
use quicframe.Prelude.Text.{Text, codes, text_eq, has_prefix, is_empty}
use quicframe.Protocol.Types.{
  Value, text, token, Token, Claims, map_claims, custom, status_unauthorized,
}
use quicframe.Protocol.Codec.{Msgpack}
use quicframe.Framework.Context.{Context, Certificate, error, get_header, set, get}
use quicframe.Framework.Handler.{Run, HandlerFunc, MiddlewareFunc, perform}

-- `signing_method` is the name of the algorithm, `none` for nil. The claims factory only chooses
-- what the parser fills in, and is part of the parser.
pub record JwtConfig : Type 0 where
  pub signing_key : Value
  pub signing_method : Option Text
  pub token_header : Text
  pub context_key : Text

-- `jwt.ParseWithClaims`: it asks the given function for the key to the algorithm in the token's
-- header.
abbrev pub JwtParser : Type 0
JwtParser = Text → (Text → Result Value) → Result Token

abbrev pub jwt_locals_key : Text
jwt_locals_key = codes "jwt_claims"

abbrev default_to : Text → Text → Text
default_to d [] = d
default_to d (a ∷ s) = a ∷ s

abbrev default_method : Option Text → Option Text
default_method none = some (codes "HS256")
default_method (some m) = some m

unfoldable pub set_defaults : JwtConfig → JwtConfig
set_defaults c = record c {
  signing_method = default_method c.signing_method;
  token_header = default_to (codes "authorization") c.token_header;
  context_key = default_to jwt_locals_key c.context_key;
}

abbrev same_method : Option Text → Text → Bool
same_method none alg = false
same_method (some m) alg = text_eq alg m

-- The function that `JWT` hands to the parser.
unfoldable pub key_func : JwtConfig → Text → Result Value
key_func cfg alg =
    if same_method cfg.signing_method alg
    then ok cfg.signing_key
    else err (new (codes "unexpected signing method: " ++ alg))

abbrev pub bearer : Text
bearer = codes "Bearer "

module _ {H : Type 0} where
  abbrev pub with_local : Text → Value → Run H → Run H
  with_local key v r = record r { ctx = set key v r.ctx }

module _ {H : Type 0} (mp : Msgpack) where
  abbrev pub unauthorized : Text → HandlerFunc H
  unauthorized message = perform (error mp status_unauthorized message [])

  -- What follows the parser.
  admit : JwtConfig → Result Token → MiddlewareFunc H
  admit cfg (err e) next r = unauthorized (codes "invalid or expired token") r
  admit cfg (ok t) next r =
      if t.valid
      then next (with_local cfg.context_key (token t) r)
      else unauthorized (codes "invalid or expired token") r

  -- The middleware of a configuration with its defaults set.
  check_token : JwtParser → JwtConfig → MiddlewareFunc H
  unfolding admit
  check_token parse cfg next r =
      let raw = get_header cfg.token_header r.ctx in
      if is_empty raw
      then unauthorized (codes "missing authorization header") r
      else if has_prefix raw bearer
      then admit cfg (parse (drop 7 raw) (key_func cfg)) next r
      else unauthorized (codes "authorization header must be Bearer token") r

  unfoldable pub jwt : JwtParser → JwtConfig → MiddlewareFunc H
  unfolding check_token
  jwt parse cfg = check_token parse (set_defaults cfg)

  unfoldable pub jwt_simple : JwtParser → Value → MiddlewareFunc H
  unfolding jwt
  jwt_simple parse secret = jwt parse (record {
    signing_key = secret;
    signing_method = some (codes "HS256");
    token_header = [];
    context_key = [];
  })

  check_certificates : List Certificate → MiddlewareFunc H
  check_certificates [] next r = unauthorized (codes "mTLS: missing peer certificates") r
  check_certificates (cert ∷ _) next r =
      if is_empty cert.common_name
      then unauthorized (codes "mTLS: identity missing in certificate") r
      else next (with_local (codes "node_id") (text cert.common_name) r)

  unfoldable pub mtls_auth : MiddlewareFunc H
  unfolding check_certificates
  mtls_auth next r = check_certificates r.ctx.conn.peer_certificates next r

-- `token.Claims.(jwt.MapClaims)`, nil for other claims.
abbrev pub map_claims_of : Claims → Option (List (Text × Text))
map_claims_of (map_claims m) = some m
map_claims_of (custom n) = none

abbrev claims_of : Option Value → Option (List (Text × Text))
claims_of (some (token t)) = map_claims_of t.claims
claims_of _ = none

unfoldable pub get_claims : Context → Option (List (Text × Text))
get_claims c = claims_of (get jwt_locals_key c)
