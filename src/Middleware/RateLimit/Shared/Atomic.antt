-- ===== src/Middleware/RateLimit/Shared/Atomic.antt =====
-- Requests one after the other: the steps of RateLimit/Shared against the map with the limiters in it.
use quicframe.Prelude.{
  ℕ, ◌-◌, ◌≡◌, refl, true, false, List, [], ◌∷◌, ◌++◌, length, Option, none, some, some_injective,
  ap, sym, ◌∙◌, inl, inr, Bool-cases, ltb, arith,
}
use quicframe.Prelude.Text.{Text, text_eq, text_eq_self}
use quicframe.Prelude.Dict
use quicframe.Framework.App.Serving.{take_at}
use quicframe.Middleware.RateLimit.{Entry, Entries, Limiters, evict, limiter_of}
use quicframe.Middleware.RateLimit.Shared.{
  Shared, getting, allowing, find, limiter_for, get_shared, allow_at, allow_shared, answered, step,
}
use quicframe.Middleware.RateLimit.Shared.Alone.{
  Avoids, limiter_at, Shows, limiter_at-length, limiter_at-append, limiter_at-bound, allow_at-same,
  allow_at-other, insert-Shows_new, insert-Shows_old,
}

pub insert-insert :
    {V : Type 0} (k : Text) (v w : V) (m : List (Text × V))
    → Dict.insert k v (Dict.insert k w m) ≡ Dict.insert k v m
unfolding Dict.insert
insert-insert k v w [] = rw (text_eq_self k) refl
insert-insert k v w ((j, x) ∷ m) = elim (Bool-cases (text_eq j k)) [
  | inl same ↦ rw (same, text_eq_self k) refl
  | inr other ↦ rw (other, other) (ap (λ n. (j, x) ∷ n) (insert-insert k v w m))
]

Avoids-evict : (idle now n : ℕ) (es : Entries ℕ) → Avoids n es → Avoids n (evict idle now es)
unfolding evict
Avoids-evict idle now n [] h = tt
Avoids-evict idle now n ((k, e) ∷ es) (here, h) = elim (Bool-cases (ltb idle (now - e.last_seen))) [
  | inl old ↦ rw old (Avoids-evict idle now n es h)
  | inr fresh ↦ rw fresh (here, Avoids-evict idle now n es h)
]

module _ {L : Type 0} where
  Shows-missing :
      (ls : List L) (key : Text) (es : Entries ℕ) (fs : Entries L)
      → Shows ls es fs
      → Dict.lookup key es ≡ none
      → Dict.lookup key fs ≡ none
  unfolding Dict.lookup
  Shows-missing ls key [] [] shown h = refl
  Shows-missing ls key [] (f ∷ fs) shown h = absurd shown
  Shows-missing ls key (e ∷ es) [] shown h = absurd shown
  Shows-missing ls key ((k, e) ∷ es) ((j, f) ∷ fs) (names, times, there, apart, shown) h =
      elim (Bool-cases (text_eq k key)) [
        | inl same ↦ let bad : some e ≡ none = rw same at h in cc
        | inr other ↦
            let other' : text_eq j key ≡ false = ap (λ t. text_eq t key) (sym names) ∙ other in
            rw other' (Shows-missing ls key es fs shown (rw other at h))
      ]

  Shows-found :
      (ls : List L) (key : Text) (es : Entries ℕ) (fs : Entries L) (x : Entry ℕ)
      → Shows ls es fs
      → Dict.lookup key es ≡ some x
      → (f : Entry L) × (Dict.lookup key fs ≡ some f) × (limiter_at x.limiter ls ≡ some f.limiter)
  unfolding Dict.lookup
  Shows-found ls key [] fs x shown h = cc
  Shows-found ls key (e ∷ es) [] x shown h = absurd shown
  Shows-found ls key ((k, e) ∷ es) ((j, f) ∷ fs) x (names, times, there, apart, shown) h =
      elim (Bool-cases (text_eq k key)) [
        | inl same ↦
            let same' : text_eq j key ≡ true = ap (λ t. text_eq t key) (sym names) ∙ same in
            let is_x : e ≡ x = some_injective (rw same at h) in
            (f, rw same' refl, ap (λ (y : Entry ℕ). limiter_at y.limiter ls) (sym is_x) ∙ there)
        | inr other ↦
            let other' : text_eq j key ≡ false = ap (λ t. text_eq t key) (sym names) ∙ other in
            let (g, found, at_x) = Shows-found ls key es fs x shown (rw other at h) in
            (g, rw other' found, at_x)
      ]

  Shows-Avoids :
      (ls : List L) (es : Entries ℕ) (fs : Entries L) → Shows ls es fs → Avoids (length ls) es
  Shows-Avoids ls [] fs shown = tt
  Shows-Avoids ls (e ∷ es) [] shown = absurd shown
  Shows-Avoids ls ((k, e) ∷ es) ((j, f) ∷ fs) (names, times, there, apart, shown) = (
    (λ same. let bound = limiter_at-bound e.limiter ls there in omega arith),
    Shows-Avoids ls es fs shown,
  )

  pub evict-Shows :
      (idle now : ℕ) (ls : List L) (es : Entries ℕ) (fs : Entries L)
      → Shows ls es fs
      → Shows ls (evict idle now es) (evict idle now fs)
  unfolding evict
  evict-Shows idle now ls [] [] shown = tt
  evict-Shows idle now ls [] (f ∷ fs) shown = absurd shown
  evict-Shows idle now ls (e ∷ es) [] shown = absurd shown
  evict-Shows idle now ls ((k, e) ∷ es) ((j, f) ∷ fs) (names, times, there, apart, shown) =
      let rest : Shows ls (evict idle now es) (evict idle now fs) =
        evict-Shows idle now ls es fs shown in
      elim (Bool-cases (ltb idle (now - e.last_seen))) [
        | inl old ↦
            let old' : ltb idle (now - f.last_seen) ≡ true =
              ap (λ t. ltb idle (now - t)) (sym times) ∙ old in
            rw (old, old') rest
        | inr fresh ↦
            let fresh' : ltb idle (now - f.last_seen) ≡ false =
              ap (λ t. ltb idle (now - t)) (sym times) ∙ fresh in
            rw (fresh, fresh') (names, times, there, Avoids-evict idle now e.limiter es apart, rest)
      ]

module _ {L : Type 0} (lim : Limiters L) (burst idle : ℕ) where
  module _ (key : Text) (now : ℕ) (s : Shared L) (fs : Entries L)
      (shown : Shows s.limiters s.entries fs) (l : L)
      (current : limiter_of lim burst (Dict.lookup key fs) ≡ l) where
    -- What a request leaves, where the key's entry is this one.
    abbrev pub Served : Option (Entry ℕ) → Type 0
    Served o =
        (limiter_at (find lim burst idle o s).0 (find lim burst idle o s).1 ≡ some l)
        × Shows
            (allow_at lim burst idle now (find lim burst idle o s).0 (find lim burst idle o s).1).0
            (Dict.insert key (record { limiter = (find lim burst idle o s).0; last_seen = now })
              s.entries)
            (Dict.insert key (record { limiter = (lim.allow now l).0; last_seen = now }) fs)

    pub request-Shows : (o : Option (Entry ℕ)) → Dict.lookup key s.entries ≡ o → Served o
    unfolding limiter_of
    request-Shows none missing =
        let fresh : lim.new_limiter burst ≡ l =
          ap (limiter_of lim burst) (sym (Shows-missing s.limiters key s.entries fs shown missing))
          ∙ current in
        let at_end : limiter_at (length s.limiters) (s.limiters ++ lim.new_limiter burst ∷ [])
            ≡ some l =
          limiter_at-length s.limiters (lim.new_limiter burst) ∙ ap some fresh in
        (
          at_end,
          insert-Shows_new s.limiters _ (length s.limiters) _
              (allow_at-same lim burst idle now (length s.limiters) _ l at_end).0
              (λ m x other h.
                allow_at-other lim burst idle now (length s.limiters) m _ other
                ∙ limiter_at-append m s.limiters _ h)
              key now s.entries fs missing (Shows-Avoids s.limiters s.entries fs shown) shown,
        )
    request-Shows (some x) found =
        let (f, found', there) = Shows-found s.limiters key s.entries fs x shown found in
        let own : f.limiter ≡ l = ap (limiter_of lim burst) (sym found') ∙ current in
        let at_x : limiter_at x.limiter s.limiters ≡ some l = there ∙ ap some own in
        (
          at_x,
          insert-Shows_old s.limiters _ x.limiter _
              (allow_at-same lim burst idle now x.limiter _ l at_x).0
              (λ m y other h. allow_at-other lim burst idle now x.limiter m _ other ∙ h) key now
              s.entries fs x found refl shown,
        )

  -- The shared state after a request alone.
  abbrev pub after_request : Text → ℕ → Shared L → Shared L
  after_request key now s =
      let x =
        allow_at lim burst idle now (limiter_for lim burst idle key s)
          (find lim burst idle (Dict.lookup key s.entries) s).1 in
      record {
        entries =
            Dict.insert key (record { limiter = limiter_for lim burst idle key s; last_seen = now })
              s.entries;
        limiters = x.0;
        waiting = [];
        answers = s.answers ++ answered lim burst idle (limiter_for lim burst idle key s) x.1;
      }

  pub step-alone :
      (key : Text) (now : ℕ) (s : Shared L)
      → s.waiting ≡ []
      → step lim burst idle (allowing 0 now) (step lim burst idle (getting key now) s)
        ≡ after_request key now s
  unfolding step take_at allow_shared
  step-alone key now s none_waits =
      ap
        (λ w.
          allow_shared lim burst idle now (take_at 0 (w ++ limiter_for lim burst idle key s ∷ []))
            (get_shared lim burst idle key now s))
        none_waits
