-- ===== src/Middleware/RateLimit/Shared/Keeping.antt =====
-- A waiting request and its key's entry.
use quicframe.Prelude.{
  ℕ, ◌+◌, ◌-◌, ◌≤◌, ◌≡◌, refl, false, List, [], ◌∷◌, All, Option, none, some, ap, sym, ◌∙◌, subst,
  inl, inr, Bool-cases, ltb, arith,
}
use quicframe.Prelude.Text.{Text, text_eq, text_eq_iff}
use quicframe.Prelude.Dict
use quicframe.Framework.App.Serving.{take_at}
use quicframe.Middleware.RateLimit.{Limiters}
use quicframe.Middleware.RateLimit.Eviction.{evict-HasDistinctKeys, lookup-evict, recent}
use quicframe.Middleware.RateLimit.Shared.{
  Shared, at_start, Step, getting, allowing, sweeping, find, limiter_for, get_shared, allow_shared,
  step, run,
}

module _ {L : Type 0} (lim : Limiters L) (burst idle : ℕ) where
  -- The map has one entry for each key, and the key's was seen at that time or later and holds
  -- that limiter.
  pub record IsKept (key : Text) (since n : ℕ) (s : Shared L) : Type 0 where
    pub distinct : Dict.HasDistinctKeys s.entries
    pub last_seen : ℕ
    pub seen : since ≤ last_seen
    pub found : Dict.lookup key s.entries ≡ some (record { limiter = n; last_seen = last_seen })

  -- A step after that time, and no sweep later than the idle timeout after it.
  abbrev pub IsMeanwhile : ℕ → Step → Type 0
  IsMeanwhile since (getting key now) = since ≤ now
  IsMeanwhile since (allowing n now) = since ≤ now
  IsMeanwhile since (sweeping now) = now ≤ since + idle

  get_shared-IsKept :
      (key other : Text) (since n now : ℕ) (s : Shared L)
      → since ≤ now
      → IsKept key since n s
      → IsKept key since n (get_shared lim burst idle other now s)
  get_shared-IsKept key other since n now s later kept = elim (Bool-cases (text_eq other key)) [
    | inl same ↦
        let e = (text_eq_iff other key).0 same in
        let number : limiter_for lim burst idle other s ≡ n =
          ap (λ k. limiter_for lim burst idle k s) e
          ∙ ap (λ o. (find lim burst idle o s).0) kept.found in
        record {
          distinct = Dict.insert-HasDistinctKeys other _ s.entries kept.distinct;
          last_seen = now;
          seen = later;
          found =
              Dict.lookup-insert other key _ s.entries
              ∙ rw same (ap (λ m. some (record { limiter = m; last_seen = now })) number);
        }
    | inr apart ↦ record {
      distinct = Dict.insert-HasDistinctKeys other _ s.entries kept.distinct;
      last_seen = kept.last_seen;
      seen = kept.seen;
      found = Dict.lookup-insert other key _ s.entries ∙ rw apart kept.found;
    }
  ]

  allow_shared-IsKept :
      (key : Text) (since n now : ℕ) (o : Option (ℕ × List ℕ)) (s : Shared L)
      → IsKept key since n s
      → IsKept key since n (allow_shared lim burst idle now o s)
  unfolding allow_shared
  allow_shared-IsKept key since n now none s kept = kept
  allow_shared-IsKept key since n now (some (m, others)) s kept = record {
    distinct = kept.distinct;
    last_seen = kept.last_seen;
    seen = kept.seen;
    found = kept.found;
  }

  step-IsKept :
      (key : Text) (since n : ℕ) (e : Step) (s : Shared L)
      → IsMeanwhile since e
      → IsKept key since n s
      → IsKept key since n (step lim burst idle e s)
  unfolding step
  step-IsKept key since n (getting other now) s later kept =
      get_shared-IsKept key other since n now s later kept
  step-IsKept key since n (allowing m now) s later kept =
      allow_shared-IsKept key since n now (take_at m s.waiting) s kept
  step-IsKept key since n (sweeping now) s soon kept =
      let young : ltb idle (now - kept.last_seen) ≡ false = ground (arith, kept.seen) in
      record {
        distinct = evict-HasDistinctKeys idle now s.entries kept.distinct;
        last_seen = kept.last_seen;
        seen = kept.seen;
        found =
            lookup-evict idle now key s.entries kept.distinct
            ∙ ap (recent idle now) kept.found
            ∙ rw young refl;
      }

  run-IsKept :
      (key : Text) (since n : ℕ) (es : List Step) (s : Shared L)
      → All (IsMeanwhile since) es
      → IsKept key since n s
      → IsKept key since n (run lim burst idle es s)
  unfolding run
  run-IsKept key since n [] s _ kept = kept
  run-IsKept key since n (e ∷ es) s (now, later) kept =
      run-IsKept key since n es (step lim burst idle e s) later
        (step-IsKept key since n e s now kept)

  allow_shared-entries :
      (now : ℕ) (o : Option (ℕ × List ℕ)) (s : Shared L)
      → (allow_shared lim burst idle now o s).entries ≡ s.entries
  unfolding allow_shared
  allow_shared-entries now none s = refl
  allow_shared-entries now (some (n, others)) s = refl

  step-HasDistinctKeys :
      (e : Step) (s : Shared L)
      → Dict.HasDistinctKeys s.entries
      → Dict.HasDistinctKeys (step lim burst idle e s).entries
  unfolding step
  step-HasDistinctKeys (getting key now) s h = Dict.insert-HasDistinctKeys key _ s.entries h
  step-HasDistinctKeys (allowing m now) s h =
      subst Dict.HasDistinctKeys (sym (allow_shared-entries now (take_at m s.waiting) s)) h
  step-HasDistinctKeys (sweeping now) s h = evict-HasDistinctKeys idle now s.entries h

  run-HasDistinctKeys :
      (es : List Step) (s : Shared L)
      → Dict.HasDistinctKeys s.entries
      → Dict.HasDistinctKeys (run lim burst idle es s).entries
  unfolding run
  run-HasDistinctKeys [] s h = h
  run-HasDistinctKeys (e ∷ es) s h =
      run-HasDistinctKeys es (step lim burst idle e s) (step-HasDistinctKeys e s h)

  -- The limiter that a request got is its key's as long as the request may need it: from any run
  -- of the middleware on, whatever other requests do between the request's getLimiter and its
  -- Allow, the map keeps that limiter for the key, and who asks for the key gets the same one. The
  -- cleanup loop does not run later than the idle timeout after the getLimiter, and the clock does
  -- not go back behind it.
  pub getting-keeps :
      (before meanwhile : List Step) (key : Text) (now : ℕ)
      → All (IsMeanwhile now) meanwhile
      → (seen : ℕ) × (Dict.lookup key
            (run lim burst idle meanwhile
              (step lim burst idle (getting key now) (run lim burst idle before at_start))).entries
          ≡ some (record {
            limiter = limiter_for lim burst idle key (run lim burst idle before at_start);
            last_seen = seen;
          }))
        × (limiter_for lim burst idle key (
              run lim burst idle meanwhile
                (step lim burst idle (getting key now) (run lim burst idle before at_start)))
            ≡ limiter_for lim burst idle key (run lim burst idle before at_start))
  unfolding step
  getting-keeps before meanwhile key now later =
      let s = run lim burst idle before at_start in
      let kept =
        run-IsKept key now (limiter_for lim burst idle key s) meanwhile
          (step lim burst idle (getting key now) s) later
          (record {
            distinct =
                Dict.insert-HasDistinctKeys key _ s.entries
                  (run-HasDistinctKeys before at_start tt);
            last_seen = now;
            seen = omega arith;
            found = Dict.lookup-insert_self key _ s.entries;
          }) in
      (
        kept.last_seen,
        kept.found,
        ap
            (λ o.
              (find lim burst idle o
                (run lim burst idle meanwhile (step lim burst idle (getting key now) s))).0)
            kept.found,
      )
