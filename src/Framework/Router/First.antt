-- ===== src/Framework/Router/First.antt =====
-- The first route that fits is the one that is returned, whatever is registered behind it.
use quicframe.Prelude.{
  ◌≡◌, refl, Bool, true, false, List, [], ◌∷◌, ◌++◌, some, All, inl, inr, ap, sym, ◌∙◌,
  append_assoc, Option-cases,
}
use quicframe.Prelude.Text.{Text, text_eq_iff, text_eq-ne, to_upper}
use quicframe.Framework.Path.{split_path, match_segments, parse_pattern}
use quicframe.Framework.Handler.{HandlerFunc, MiddlewareFunc, apply_middleware}
use quicframe.Framework.Router.{Route, Router, match_routes, match, add}
use quicframe.Framework.Router.Choice.{Misses, Passes, here-missing, here-found}

module _ {H : Type 0} (unicode : Text → Text) (method path : Text) where
  match_routes-chosen :
      (r : Router H) (before after : List (Route H)) (rt : Route H) (params : List (Text × Text))
      (b : Bool)
      → All (Passes unicode method path) before
      → match_segments rt.segments (split_path path) ≡ some params
      → rt.method ≡ to_upper unicode method
      → match_routes unicode r method (split_path path) (before ++ rt ∷ after) b
        ≡ (rt.handler, params)
  match_routes-chosen r [] after rt params b passed found same =
      here-found unicode method path r rt after b params found
      ∙ rw ((text_eq_iff rt.method (to_upper unicode method)).1 same)
  match_routes-chosen r (q ∷ before) after rt params b (inl missed, passed) found same =
      here-missing unicode method path r q (before ++ rt ∷ after) b missed
      ∙ match_routes-chosen r before after rt params b passed found same
  match_routes-chosen r (q ∷ before) after rt params b (inr other, passed) found same =
      elim (Option-cases (match_segments q.segments (split_path path))) [
        | inl missed ↦
            here-missing unicode method path r q (before ++ rt ∷ after) b missed
            ∙ match_routes-chosen r before after rt params b passed found same
        | inr (ps, matched) ↦
            here-found unicode method path r q (before ++ rt ∷ after) b ps matched
            ∙ rw (text_eq-ne other)
                (match_routes-chosen r before after rt params true passed found same)
      ]

  pub match-chosen :
      (r : Router H) (before after : List (Route H)) (rt : Route H) (params : List (Text × Text))
      → r.routes ≡ before ++ rt ∷ after
      → All (Passes unicode method path) before
      → match_segments rt.segments (split_path path) ≡ some params
      → rt.method ≡ to_upper unicode method
      → match unicode r method path ≡ (rt.handler, params)
  unfolding match
  match-chosen r before after rt params all passed found same =
      rw all (match_routes-chosen r before after rt params false passed found same)

  match_routes-absent :
      (r : Router H) (rts : List (Route H))
      → All (Misses unicode method path) rts
      → match_routes unicode r method (split_path path) rts false ≡ (r.not_found, [])
  unfolding match_routes
  match_routes-absent r [] h = refl
  match_routes-absent r (rt ∷ rts) (missed, h) =
      here-missing unicode method path r rt rts false missed ∙ match_routes-absent r rts h

  pub match-absent :
      (r : Router H)
      → All (Misses unicode method path) r.routes
      → match unicode r method path ≡ (r.not_found, [])
  unfolding match
  match-absent r h = match_routes-absent r r.routes h

  -- A request that some route serves gets the same handler and parameters after any further
  -- registration: routes do not compete by how specific their patterns are.
  pub match-add :
      (r : Router H) (before after : List (Route H)) (rt : Route H) (params : List (Text × Text))
      (new_method pattern : Text) (mw : List (MiddlewareFunc H)) (h : HandlerFunc H)
      → r.routes ≡ before ++ rt ∷ after
      → All (Passes unicode method path) before
      → match_segments rt.segments (split_path path) ≡ some params
      → rt.method ≡ to_upper unicode method
      → match unicode (add unicode new_method pattern mw h r) method path
        ≡ match unicode r method path
  unfolding add
  match-add r before after rt params new_method pattern mw h all passed found same =
      let last : Route H = record {
        method = to_upper unicode new_method;
        segments = parse_pattern pattern;
        handler = apply_middleware h mw;
      } in
      match-chosen _ before (after ++ last ∷ []) rt params
        (ap (λ l. l ++ last ∷ []) all ∙ append_assoc before (rt ∷ after) (last ∷ [])) passed found
        same
      ∙ sym (match-chosen r before after rt params all passed found same)
