-- ===== src/Middleware/Auth/Jwt.antt =====
-- Which requests the token middleware lets through.
use quicframe.Prelude.{
  ◌≡◌, refl, true, [], ◌∷◌, ◌++◌, Option, none, some, Result, ok, err, new, ap, sym, ◌∙◌, inl, inr,
  Bool-cases, if◌then◌else◌,
}
use quicframe.Prelude.Text.{Text, codes, is_empty, text_eq, text_eq_iff}
use quicframe.Prelude.Dict
use quicframe.Protocol.Types.{Value, Token, token}
use quicframe.Protocol.Codec.{Msgpack}
use quicframe.Framework.Context.{get_header, set, get}
use quicframe.Framework.Handler.{Run, Exit, HandlerFunc}
use quicframe.Middleware.Auth.Outcome
use quicframe.Middleware.Auth.Outcome.{IsAccepted, jwt-Outcome}
use quicframe.Middleware.Auth.{
  JwtConfig, JwtParser, set_defaults, key_func, bearer, unauthorized, with_local, jwt, same_method,
  default_to, default_method, jwt_locals_key, map_claims_of, claims_of, get_claims,
}

-- What a configuration asks for: the header, HS256 where no algorithm is set, the local, and the key
-- for a token of that algorithm only.
abbrev pub header_of : JwtConfig → Text
header_of cfg = if is_empty cfg.token_header then codes "authorization" else cfg.token_header

abbrev or_hs256 : Option Text → Text
or_hs256 none = codes "HS256"
or_hs256 (some m) = m

abbrev pub algorithm_of : JwtConfig → Text
algorithm_of cfg = or_hs256 cfg.signing_method

abbrev pub local_of : JwtConfig → Text
local_of cfg = if is_empty cfg.context_key then codes "jwt_claims" else cfg.context_key

abbrev pub key_for : JwtConfig → Text → Result Value
key_for cfg alg =
    if text_eq alg (algorithm_of cfg)
    then ok cfg.signing_key
    else err (new (codes "unexpected signing method: " ++ alg))

default_to-is_empty : (d t : Text) → default_to d t ≡ (if is_empty t then d else t)
default_to-is_empty d [] = refl
default_to-is_empty d (a ∷ t) = refl

set_defaults-header_of : (cfg : JwtConfig) → (set_defaults cfg).token_header ≡ header_of cfg
unfolding set_defaults
set_defaults-header_of cfg = default_to-is_empty (codes "authorization") cfg.token_header

set_defaults-local_of : (cfg : JwtConfig) → (set_defaults cfg).context_key ≡ local_of cfg
unfolding set_defaults
set_defaults-local_of cfg = default_to-is_empty jwt_locals_key cfg.context_key

same_method-default :
    (m : Option Text) → same_method (default_method m) ≡ (λ alg. text_eq alg (or_hs256 m))
same_method-default none = refl
same_method-default (some m) = refl

key_func-key_for : (cfg : JwtConfig) → key_func (set_defaults cfg) ≡ key_for cfg
unfolding key_func set_defaults
key_func-key_for cfg =
    ap
      (λ test alg.
        if test alg
        then ok cfg.signing_key
        else err (new (codes "unexpected signing method: " ++ alg)))
      (same_method-default cfg.signing_method)

module _ {H : Type 0} (mp : Msgpack) (parse : JwtParser) (cfg : JwtConfig) where
  -- The request carries a Bearer token that the parser accepts under the configured key and
  -- algorithm, and that is valid.
  pub record Carries (r : Run H) (t : Token) : Type 0 where
    pub credentials : Text
    pub header : get_header (header_of cfg) r.ctx ≡ bearer ++ credentials
    pub parsed : parse credentials (key_for cfg) ≡ ok t
    pub valid : t.valid ≡ true

  IsAccepted-Carries : (r : Run H) (t : Token) → IsAccepted mp parse cfg r t → Carries r t
  IsAccepted-Carries r t a = record {
    credentials = a.credentials;
    header = ap (λ h. get_header h r.ctx) (sym (set_defaults-header_of cfg)) ∙ a.header;
    parsed = ap (parse a.credentials) (sym (key_func-key_for cfg)) ∙ a.parsed;
    valid = a.valid;
  }

  Carries-IsAccepted : (r : Run H) (t : Token) → Carries r t → IsAccepted mp parse cfg r t
  Carries-IsAccepted r t c = record {
    credentials = c.credentials;
    header = ap (λ h. get_header h r.ctx) (set_defaults-header_of cfg) ∙ c.header;
    parsed = ap (parse c.credentials) (key_func-key_for cfg) ∙ c.parsed;
    valid = c.valid;
  }

  module _ (next : HandlerFunc H) (r : Run H) where
    -- How the middleware answers the request: `next` runs once, with the token in the locals, or
    -- the reply is an error frame with code 401 and `next` does not run.
    pub data Decision (out : Run H × Exit) : Type 0 where
      admitted :
          (t : Token)
          → Carries r t
          → out ≡ next (with_local (local_of cfg) (token t) r)
          → Decision out
      refused :
          ((t : Token) → ¬ (Carries r t)) → (m : Text) → out ≡ unauthorized mp m r → Decision out

    -- Either the request carries a Bearer token that the parser accepts under the configured key and
    -- algorithm and that is valid, and `next` runs with the token in the locals, or it carries no
    -- such token and the result is that of an error reply with code 401, without `next`. Where the
    -- configuration leaves them out, the header is "authorization", the algorithm HS256 and the local
    -- "jwt_claims"; for any other algorithm the parser gets an error and no key.
    pub jwt-Decision : Decision (jwt mp parse cfg next r)
    jwt-Decision = elim (jwt-Outcome mp parse cfg next r) [
      | Outcome.admitted t a e ↦
          admitted t (IsAccepted-Carries r t a)
            (e ∙ ap (λ l. next (with_local l (token t) r)) (set_defaults-local_of cfg))
      | Outcome.refused no_token m e ↦ refused (λ t c. no_token t (Carries-IsAccepted r t c)) m e
    ]

  -- If the parser accepts a token only with a key for the algorithm in its header, then a carried
  -- token has the configured algorithm: HS256 where none was configured.
  pub Carries-algorithm :
      (algorithm : Text → Text)
      (asks : (credentials : Text) (key : Text → Result Value) (t : Token)
        → parse credentials key ≡ ok t
        → (k : Value) × (key (algorithm credentials) ≡ ok k))
      (r : Run H) (t : Token) (c : Carries r t)
      → algorithm c.credentials ≡ algorithm_of cfg
  Carries-algorithm algorithm asks r t c =
      let (k, e) = asks c.credentials (key_for cfg) t c.parsed in
      elim (Bool-cases (text_eq (algorithm c.credentials) (algorithm_of cfg))) [
        | inl same ↦ (text_eq_iff _ _).0 same
        | inr other ↦ let bad : err _ ≡ ok k = rw other at e in cc
      ]

-- The handler behind the middleware reads the claims of the admitted token with GetClaims exactly
-- when the token was stored under the default key; otherwise GetClaims sees what was there before.
pub get_claims-with_local :
    {H : Type 0} (key : Text) (t : Token) (r : Run H)
    → get_claims (with_local key (token t) r).ctx
      ≡ (if text_eq key jwt_locals_key then map_claims_of t.claims else get_claims r.ctx)
unfolding get_claims get set
get_claims-with_local key t r =
    ap claims_of (Dict.lookup-insert key jwt_locals_key (token t) r.ctx.locals)
    ∙ (elim (Bool-cases (text_eq key jwt_locals_key)) [ inl e ↦ rw e | inr e ↦ rw e ])
