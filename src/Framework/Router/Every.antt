-- ===== src/Framework/Router/Every.antt =====
-- A property of every handler that the table can give for a request.
use quicframe.Prelude.{◌∷◌, All, All-append_right, ◌⊎◌, inl, inr, ap, sym, ◌∙◌, subst, ne_none}
use quicframe.Prelude.Text.{Text}
use quicframe.Framework.Handler.{HandlerFunc}
use quicframe.Framework.Router.{Route, Router, match}
use quicframe.Framework.Router.Choice
use quicframe.Framework.Router.Choice.{Misses, match-Choice}

module _ {H : Type 0} (unicode : Text → Text) (method path : Text)
    (P : HandlerFunc H → Type 0) where
  -- The route does not match the path, or its handler has the property.
  abbrev pub Serves : Route H → Type 0
  Serves rt = Misses unicode method path rt ⊎ P rt.handler

  pub match-All :
      (r : Router H)
      → All Serves r.routes
      → P r.not_found
      → P r.method_not_allowed
      → P (match unicode r method path).0
  match-All r all missing refusing = elim (match-Choice unicode method path r) [
    | Choice.chosen before after rt params whole passed found same out ↦
        elim (All-append_right Serves before (rt ∷ after) (subst (All Serves) whole all)).0 [
          | inl missed ↦ absurd (ne_none (sym found ∙ missed))
          | inr served ↦ subst P (sym (ap (λ x. x.0) out)) served
        ]
    | Choice.absent misses out ↦ subst P (sym (ap (λ x. x.0) out)) missing
    | Choice.refused passes covered out ↦ subst P (sym (ap (λ x. x.0) out)) refusing
  ]
