-- ===== src/Middleware/RateLimit/Eviction.antt =====
-- What a tick of the cleanup loop removes.
use quicframe.Prelude.{
  ℕ, ◌-◌, ◌≡◌, refl, [], ◌∷◌, Option, none, some, subst, inl, inr, Bool-cases, ltb, if◌then◌else◌,
  arith,
}
use quicframe.Prelude.Text.{Text, text_eq, text_eq_iff}
use quicframe.Prelude.Dict
use quicframe.Middleware.RateLimit.{Entry, Entries, evict}

module _ {L : Type 0} (idle now : ℕ) where
  -- An entry that is kept: it was seen within the idle timeout.
  abbrev pub recent : Option (Entry L) → Option (Entry L)
  recent none = none
  recent (some e) = if ltb idle (now - e.last_seen) then none else some e

  pub evict-Misses :
      (k : Text) (es : Entries L) → Dict.Misses k es → Dict.Misses k (evict idle now es)
  unfolding evict
  evict-Misses k [] h = tt
  evict-Misses k ((j, e) ∷ es) (ne, h) = ground (arith, evict-Misses k es h)

  lookup_of_Misses : (k : Text) (es : Entries L) → Dict.Misses k es → Dict.lookup k es ≡ none
  unfolding Dict.lookup
  lookup_of_Misses k [] h = refl
  lookup_of_Misses k ((j, e) ∷ es) (ne, h) =
      ground (arith, lookup_of_Misses k es h, text_eq_iff j k)

  -- After a tick every key has the entry that it had if that was seen within the timeout, and none
  -- otherwise. The keys of the map are distinct.
  pub lookup-evict :
      (k : Text) (es : Entries L)
      → Dict.HasDistinctKeys es
      → Dict.lookup k (evict idle now es) ≡ recent (Dict.lookup k es)
  unfolding evict Dict.lookup
  lookup-evict k [] h = refl
  lookup-evict k ((j, e) ∷ es) (misses, h) =
      let ih = lookup-evict k es h in
      elim (Bool-cases (text_eq j k)) [
        | inl same ↦
            let gone : Dict.lookup k (evict idle now es) ≡ none =
              subst (λ x. Dict.lookup x (evict idle now es) ≡ none) ((text_eq_iff j k).0 same)
                (lookup_of_Misses j (evict idle now es) (evict-Misses j es misses)) in
            elim (Bool-cases (ltb idle (now - e.last_seen))) [
              | inl old ↦ rw (same, old) gone
              | inr fresh ↦ rw (same, fresh, same)
            ]
        | inr other ↦ elim (Bool-cases (ltb idle (now - e.last_seen))) [
          | inl old ↦ rw (other, old) ih
          | inr fresh ↦ rw (other, fresh, other) ih
        ]
      ]

pub evict-HasDistinctKeys :
    {L : Type 0} (idle now : ℕ) (es : Entries L)
    → Dict.HasDistinctKeys es
    → Dict.HasDistinctKeys (evict idle now es)
unfolding evict
evict-HasDistinctKeys idle now [] h = tt
evict-HasDistinctKeys idle now ((k, e) ∷ es) (here, h) =
    elim (Bool-cases (ltb idle (now - e.last_seen))) [
      | inl old ↦ rw old (evict-HasDistinctKeys idle now es h)
      | inr fresh ↦ rw fresh (evict-Misses idle now k es here, evict-HasDistinctKeys idle now es h)
    ]
