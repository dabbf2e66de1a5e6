-- ===== src/Framework/Router/Choice.antt =====
-- Which handler `match` returns.
use quicframe.Prelude.{
  ◌≡◌, ◌≢◌, refl, Bool, true, false, List, [], ◌∷◌, ◌++◌, none, some, All, All-append, Any,
  Any-append_left, Any-last, ◌⊎◌, inl, inr, append_assoc, append-nil, sym, ◌∙◌, subst, Bool-cases,
  Option-cases, ne_none, if◌then◌else◌,
}
use quicframe.Prelude.Text.{Text, text_eq, text_eq_iff, ne_of_text_eq, to_upper}
use quicframe.Framework.Path.{split_path, match_segments}
use quicframe.Framework.Handler.{HandlerFunc}
use quicframe.Framework.Router.{Route, Router, match_routes, match}

module _ {H : Type 0} (unicode : Text → Text) (method path : Text) where
  -- The route's pattern does not match the path; it matches; the route does not serve the request.
  abbrev pub Misses : Route H → Type 0
  Misses rt = match_segments rt.segments (split_path path) ≡ none

  abbrev pub Covers : Route H → Type 0
  Covers rt = match_segments rt.segments (split_path path) ≢ none

  abbrev pub Passes : Route H → Type 0
  Passes rt = Misses rt ⊎ (rt.method ≢ to_upper unicode method)

  -- What the handler and parameters for a request are: those of the first route that matches the
  -- path and has the method; the handler for 404 if no pattern matches the path; the handler for
  -- 405 if one does, but no such route has the method.
  pub data Choice (r : Router H) (out : HandlerFunc H × List (Text × Text)) : Type 0 where
    chosen :
        (before after : List (Route H)) (rt : Route H) (params : List (Text × Text))
        → r.routes ≡ before ++ rt ∷ after
        → All Passes before
        → match_segments rt.segments (split_path path) ≡ some params
        → rt.method ≡ to_upper unicode method
        → out ≡ (rt.handler, params)
        → Choice r out
    absent : All Misses r.routes → out ≡ (r.not_found, []) → Choice r out
    refused :
        All Passes r.routes → Any Covers r.routes → out ≡ (r.method_not_allowed, []) → Choice r out

  -- What the loop knows of the routes that it has passed.
  abbrev Seen : Bool → List (Route H) → Type 0
  Seen true before = Any Covers before
  Seen false before = All Misses before

  Seen-covering :
      (b : Bool) (before : List (Route H)) (rt : Route H)
      → Covers rt
      → Seen true (before ++ rt ∷ [])
  Seen-covering b before rt h = Any-last Covers before rt h

  Seen-missing :
      (b : Bool) (before : List (Route H)) (rt : Route H)
      → Misses rt
      → Seen b before
      → Seen b (before ++ rt ∷ [])
  Seen-missing true before rt h seen = Any-append_left Covers before (rt ∷ []) seen
  Seen-missing false before rt h seen = All-append Misses before (rt ∷ []) seen (h, tt)

  module _ (r : Router H) (rt : Route H) (rest : List (Route H)) (b : Bool) where
    abbrev pub Outcome : Type 0
    Outcome = HandlerFunc H × List (Text × Text)

    abbrev pub later : Bool → Outcome
    later seen = match_routes unicode r method (split_path path) rest seen

    abbrev pub here : Outcome
    here = match_routes unicode r method (split_path path) (rt ∷ rest) b

    pub here-missing : Misses rt → here ≡ later b
    unfolding match_routes
    here-missing missed = rw (missed, match_routes)

    pub here-found :
        (params : List (Text × Text))
        → match_segments rt.segments (split_path path) ≡ some params
        → here ≡ (
            if text_eq rt.method (to_upper unicode method)
            then (rt.handler, params)
            else later true)
    unfolding match_routes
    here-found params found = rw (found, match_routes)

  match_routes-Choice :
      (r : Router H) (before rest : List (Route H)) (b : Bool)
      → r.routes ≡ before ++ rest
      → All Passes before
      → Seen b before
      → Choice r (match_routes unicode r method (split_path path) rest b)
  unfolding match_routes
  match_routes-Choice r before [] true all passed seen =
      let whole = all ∙ append-nil before in
      refused (subst (All Passes) (sym whole) passed) (subst (Any Covers) (sym whole) seen) refl
  match_routes-Choice r before [] false all passed seen =
      absent (subst (All Misses) (sym (all ∙ append-nil before)) seen) refl
  match_routes-Choice r before (rt ∷ rest) b all passed seen =
      let next = all ∙ sym (append_assoc before (rt ∷ []) rest) in
      elim (Option-cases (match_segments rt.segments (split_path path))) [
        | inl missed ↦ subst (Choice r) (sym (here-missing r rt rest b missed)) (
            match_routes-Choice r (before ++ rt ∷ []) rest b next
              (All-append Passes before (rt ∷ []) passed (inl missed, tt))
              (Seen-missing b before rt missed seen))
        | inr (params, found) ↦
            subst (Choice r) (sym (here-found r rt rest b params found))
              (elim (Bool-cases (text_eq rt.method (to_upper unicode method))) [
                | inl same ↦
                    rw same (
                      chosen before rest rt params all passed found ((text_eq_iff _ _).0 same) refl)
                | inr other ↦ rw other (
                    match_routes-Choice r (before ++ rt ∷ []) rest true next
                      (All-append Passes before (rt ∷ []) passed (inr (ne_of_text_eq other), tt))
                      (Seen-covering b before rt (λ e. ne_none (sym found ∙ e))))
              ])
      ]

  -- For every table of routes and every request, `match` returns the handler and parameters of the
  -- first route registered that matches the path and has the method; the handler for 404 if no
  -- pattern matches the path; the handler for 405 if one does, but none with the method.
  pub match-Choice : (r : Router H) → Choice r (match unicode r method path)
  unfolding match
  match-Choice r = match_routes-Choice r [] r.routes false refl tt tt
