-- ===== src/Middleware/RateLimit/Keys.antt =====
-- What one request does to the limiters.
use quicframe.Prelude.{ℕ, ◌≡◌, ◌≢◌, refl, some, ap, sym, ◌∙◌}
use quicframe.Prelude.Text.{Text, text_eq-ne}
use quicframe.Prelude.Dict
use quicframe.Framework.Context.{Context}
use quicframe.Middleware.RateLimit.{Entries, Limiters, limiter_of, put_limiter, take_token}

module _ {L : Type 0} (lim : Limiters L) (burst : ℕ) (key : Text) (now : ℕ) (es : Entries L) where
  -- The limiter that decides: the key's own, or a new one.
  abbrev pub current : L
  current = limiter_of lim burst (Dict.lookup key es)

  -- The entry that getLimiter stores and Allow changes.
  abbrev pub stored : Entries L
  stored = Dict.insert key (record { limiter = current; last_seen = now }) es

  pub take_token-insert : take_token lim burst key now es ≡ (
    (lim.allow now current).1,
    Dict.insert key (record { limiter = (lim.allow now current).0; last_seen = now }) stored,
  )
  unfolding take_token
  take_token-insert =
      ap (λ o. ((lim.allow now current).1, put_limiter lim key (lim.allow now current).0 o stored))
        (Dict.lookup-insert_self key (record { limiter = current; last_seen = now }) es)

  -- A request is judged by its key's own limiter, new if there was none, whose new state is stored
  -- with the time of the request; the limiters of all other keys are left alone.
  pub take_token_lem :
      (other : Text)
      → other ≢ key
      → ((take_token lim burst key now es).0 ≡ (lim.allow now current).1)
        × (Dict.lookup key (take_token lim burst key now es).1
            ≡ some (record { limiter = (lim.allow now current).0; last_seen = now }))
        × (Dict.lookup other (take_token lim burst key now es).1 ≡ Dict.lookup other es)
  take_token_lem other ne =
      let apart = text_eq-ne (λ (e : key ≡ other). ne (sym e)) in
      rw take_token-insert (
        refl,
        Dict.lookup-insert_self key _ _,
        Dict.lookup-insert key other _ _
            ∙ rw apart (Dict.lookup-insert key other _ es ∙ rw apart refl),
      )
