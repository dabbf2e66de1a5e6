-- ===== src/Middleware/Headers/Passing.antt =====
-- Which requests the header checks let through.
use quicframe.Prelude.{
  ◌≡◌, refl, false, List, [], ◌∷◌, ◌++◌, Option, none, some, All, ◌⊎◌, inl, inr, ap, ◌∙◌,
  Bool-cases, Option-cases, GoError, message,
}
use mathlib.Core.List.{Memᴰ}
use quicframe.Prelude.Text.{Text, codes, is_empty}
use quicframe.Protocol.Codec.{Msgpack}
use quicframe.Framework.Context.{get_header}
use quicframe.Framework.Handler.{Run, HandlerFunc}
use quicframe.Middleware.Headers.{HeaderRule, bad_request, require_headers, validate_headers}

module _ {H : Type 0} (mp : Msgpack) (next : HandlerFunc H) (r : Run H) where
  module _ (trim_space : Text → Text) where
    abbrev pub IsPresent : Text → Type 0
    IsPresent name = is_empty (trim_space (get_header name r.ctx)) ≡ false

    -- Either every named header is more than white space and the request goes on unchanged, or the
    -- result is that of an error reply with code 400 for the first header in the list that is not.
    pub require_headers-decides :
        (names : List Text)
        → (All IsPresent names × (require_headers mp trim_space names next r ≡ next r))
          ⊎ ((before : List Text) × (after : List Text) × (name : Text) × (names
                ≡ before ++ name ∷ after)
              × All IsPresent before
              × (¬ (IsPresent name))
              × (require_headers mp trim_space names next r
                  ≡ bad_request mp (codes "missing required header: " ++ name) r))
    unfolding require_headers
    require_headers-decides [] = inl (tt, refl)
    require_headers-decides (name ∷ names) =
        elim (Bool-cases (is_empty (trim_space (get_header name r.ctx)))) [
          | inl blank ↦ rw blank (inr ([], names, name, refl, tt, λ h. cc, refl))
          | inr present ↦
              let step : require_headers mp trim_space (name ∷ names) next r
                  ≡ require_headers mp trim_space names next r =
                rw present in
              elim (require_headers-decides names) [
                | inl (all, e) ↦ inl ((present, all), step ∙ e)
                | inr (before, after, missing, split, all, blank, e) ↦ inr (
                  name ∷ before,
                  after,
                  missing,
                  ap (λ l. name ∷ l) split,
                  (present, all),
                  blank,
                  step ∙ e,
                )
              ]
        ]

  -- What a rule says of the header that it is for.
  abbrev pub verdict : Text × HeaderRule → Option GoError
  verdict (name, rule) = rule (get_header name r.ctx)

  abbrev pub Accepts : Text × HeaderRule → Type 0
  Accepts x = verdict x ≡ none

  -- In whatever order the rules are visited: either every rule accepts its header and the request
  -- goes on unchanged, or the result is that of an error reply with code 400 and the text of the
  -- error of a rule that refuses its header.
  pub validate_headers-decides :
      (rules : List (Text × HeaderRule))
      → (All Accepts rules × (validate_headers mp rules next r ≡ next r))
        ⊎ ((x : Text × HeaderRule) × (e : GoError) × Memᴰ x rules
            × (verdict x ≡ some e)
            × (validate_headers mp rules next r ≡ bad_request mp (message e) r))
  unfolding validate_headers
  validate_headers-decides [] = inl (tt, refl)
  validate_headers-decides ((name, rule) ∷ rules) =
      elim (Option-cases (rule (get_header name r.ctx))) [
        | inl accepts ↦
            let step : validate_headers mp ((name, rule) ∷ rules) next r
                ≡ validate_headers mp rules next r =
              rw (accepts, validate_headers) in
            elim (validate_headers-decides rules) [
              | inl (all, e) ↦ inl ((accepts, all), step ∙ e)
              | inr (x, why, member, refuses, e) ↦ inr (x, why, Memᴰ.tail member, refuses, step ∙ e)
            ]
        | inr (why, refuses) ↦
            inr ((name, rule), why, Memᴰ.head refl, refuses, rw (refuses, validate_headers))
      ]
