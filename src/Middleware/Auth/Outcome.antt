-- ===== src/Middleware/Auth/Outcome.antt =====
-- What the token middleware does with a request, in the terms of the configuration with its defaults
-- set.
use quicframe.Prelude.{
  ◌≡◌, refl, Bool, true, false, ◌++◌, Result, ok, err, ok_injective, ap, sym, ◌∙◌, inl, inr,
  Bool-cases, drop, length, drop-length-append, if◌then◌else◌,
}
use quicframe.Prelude.Text.{Text, codes, has_prefix, is_empty}
use quicframe.Prelude.Text.Splitting.{has_prefix-append, append_of_has_prefix}
use quicframe.Protocol.Types.{Token, token}
use quicframe.Protocol.Codec.{Msgpack}
use quicframe.Framework.Context.{get_header}
use quicframe.Framework.Handler.{Run, Exit, HandlerFunc}
use quicframe.Middleware.Auth.{
  JwtConfig, JwtParser, set_defaults, key_func, bearer, unauthorized, with_local, admit,
  check_token, jwt,
}

length-bearer : length bearer ≡ 7
unfolding codes
length-bearer = refl

drop-bearer : (rest : Text) → drop 7 (bearer ++ rest) ≡ rest
drop-bearer rest =
    ap (λ n. drop n (bearer ++ rest)) (sym length-bearer) ∙ drop-length-append bearer rest

bearer_not_empty : (rest : Text) → is_empty (bearer ++ rest) ≡ false
unfolding codes
bearer_not_empty rest = refl

module _ {H : Type 0} (mp : Msgpack) (parse : JwtParser) (cfg : JwtConfig) where
  pub record IsAccepted (r : Run H) (t : Token) : Type 0 where
    pub credentials : Text
    pub header : get_header (set_defaults cfg).token_header r.ctx ≡ bearer ++ credentials
    pub parsed : parse credentials (key_func (set_defaults cfg)) ≡ ok t
    pub valid : t.valid ≡ true

  module _ (next : HandlerFunc H) (r : Run H) where
    pub data Outcome (out : Run H × Exit) : Type 0 where
      admitted :
          (t : Token)
          → IsAccepted r t
          → out ≡ next (with_local (set_defaults cfg).context_key (token t) r)
          → Outcome out
      refused :
          ((t : Token) → ¬ (IsAccepted r t)) → (m : Text) → out ≡ unauthorized mp m r → Outcome out

    abbrev raw : Text
    raw = get_header (set_defaults cfg).token_header r.ctx

    abbrev parsed : Result Token
    parsed = parse (drop 7 raw) (key_func (set_defaults cfg))

    -- What a carried token says of the header.
    IsAccepted-raw :
        (t : Token)
        → IsAccepted r t
        → (is_empty raw ≡ false) × (has_prefix raw bearer ≡ true) × (parsed ≡ ok t)
    IsAccepted-raw t c = (
      ap is_empty c.header ∙ bearer_not_empty c.credentials,
      ap (λ h. has_prefix h bearer) c.header ∙ has_prefix-append bearer c.credentials,
      ap (λ h. parse (drop 7 h) (key_func (set_defaults cfg))) c.header
          ∙ ap (λ h. parse h (key_func (set_defaults cfg))) (drop-bearer c.credentials)
          ∙ c.parsed,
    )

    admit-Outcome :
        has_prefix raw bearer ≡ true
        → (p : Result Token) → parsed ≡ p
        → Outcome (admit mp (set_defaults cfg) p next r)
    unfolding admit
    admit-Outcome h (err e) k =
        refused (λ t c. let x = (IsAccepted-raw t c).2 in cc) (codes "invalid or expired token")
          refl
    admit-Outcome h (ok t) k =
        let branch = λ (b : Bool).
          if b
          then next (with_local (set_defaults cfg).context_key (token t) r)
          else unauthorized mp (codes "invalid or expired token") r in
        elim (Bool-cases t.valid) [
          | inl valid ↦
              admitted t
                (record {
                  credentials = drop 7 raw;
                  header =
                      append_of_has_prefix raw bearer h
                      ∙ ap (λ n. bearer ++ drop n raw) length-bearer;
                  parsed = k;
                  valid = valid;
                })
                (ap branch valid)
          | inr invalid ↦
              refused
                (λ u c.
                  let same : ok t ≡ ok u = sym k ∙ (IsAccepted-raw u c).2 in
                  let bad : t.valid ≡ true = ap (λ x. x.valid) (ok_injective same) ∙ c.valid in cc)
                (codes "invalid or expired token") (ap branch invalid)
        ]

    pub jwt-Outcome : Outcome (jwt mp parse cfg next r)
    unfolding jwt check_token
    jwt-Outcome = elim (Bool-cases (is_empty raw)) [
      | inl e ↦ rw e (
          refused (λ t c. let x = (IsAccepted-raw t c).0 in cc)
            (codes "missing authorization header") refl)
      | inr present ↦ elim (Bool-cases (has_prefix raw bearer)) [
        | inl h ↦ rw (present, h) (admit-Outcome h parsed refl)
        | inr h ↦
            rw (present, h)
              (refused (λ t c. let x = (IsAccepted-raw t c).1 in cc)
                (codes "authorization header must be Bearer token") refl)
      ]
    ]
