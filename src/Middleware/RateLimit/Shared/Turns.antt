-- ===== src/Middleware/RateLimit/Shared/Turns.antt =====
-- Runs in which every request has its turn alone.
use quicframe.Prelude.{
  ℕ, ◌≡◌, refl, Bool, List, [], ◌∷◌, ◌++◌, Option, none, some, some_injective, ap, sym, ◌∙◌, subst,
  append_assoc, append-nil,
}
use quicframe.Prelude.Text.{Text}
use quicframe.Prelude.Dict
use quicframe.Middleware.RateLimit.{Entries, Limiters, evict, limiter_of, get_limiter, take_token}
use quicframe.Middleware.RateLimit.Keys.{take_token-insert}
use quicframe.Middleware.RateLimit.Shared.{
  Shared, Step, getting, allowing, sweeping, at_start, find, limiter_for, answered, step, run,
}
use quicframe.Middleware.RateLimit.Shared.Alone.{Shows, allow_at-same}
use quicframe.Middleware.RateLimit.Shared.Atomic.{
  insert-insert, evict-Shows, request-Shows, after_request, step-alone,
}

-- A request from its getLimiter to its Allow, and a tick of the cleanup loop.
pub data Turn : Type 0 where
  request : Text → ℕ → Turn
  tick : ℕ → Turn

abbrev pub steps_of : List Turn → List Step
steps_of [] = []
steps_of (request key now ∷ turns) = getting key now ∷ allowing 0 now ∷ steps_of turns
steps_of (tick now ∷ turns) = sweeping now ∷ steps_of turns

abbrev pub verdicts : List (ℕ × Bool) → List Bool
verdicts [] = []
verdicts ((n, b) ∷ rest) = b ∷ verdicts rest

module _ {L : Type 0} (lim : Limiters L) (burst idle : ℕ) where
  -- The turns on the map that has the limiters in it, and the answers.
  abbrev pub atomic : List Turn → Entries L → Entries L × List Bool
  atomic [] fs = (fs, [])
  atomic (request key now ∷ turns) fs =
      let taken = take_token lim burst key now fs in
      let rest = atomic turns taken.1 in (rest.0, taken.0 ∷ rest.1)
  atomic (tick now ∷ turns) fs = atomic turns (evict idle now fs)

  verdicts-append :
      (xs : List (ℕ × Bool)) (n : ℕ) (o : Option Bool) (b : Bool)
      → o ≡ some b
      → verdicts (xs ++ answered lim burst idle n o) ≡ verdicts xs ++ b ∷ []
  verdicts-append xs n none b h = cc
  verdicts-append [] n (some a) b h = ap (λ x. x ∷ []) (some_injective h)
  verdicts-append ((m, a) ∷ xs) n (some c) b h =
      ap (λ ys. a ∷ ys) (verdicts-append xs n (some c) b h)

  run-atomic_from :
      (turns : List Turn) (s : Shared L) (fs : Entries L)
      → Shows s.limiters s.entries fs
      → s.waiting ≡ []
      → Shows
          (run lim burst idle (steps_of turns) s).limiters
          (run lim burst idle (steps_of turns) s).entries
          (atomic turns fs).0
        × (verdicts (run lim burst idle (steps_of turns) s).answers
            ≡ verdicts s.answers ++ (atomic turns fs).1)
  unfolding run step take_token get_limiter
  run-atomic_from [] s fs shown none_waits = (shown, sym (append-nil _))
  run-atomic_from (request key now ∷ turns) s fs shown none_waits =
      let l = limiter_of lim burst (Dict.lookup key fs) in
      let n = limiter_for lim burst idle key s in
      let (there, served) =
        request-Shows lim burst idle key now s fs shown l refl (Dict.lookup key s.entries) refl in
      let twice =
        insert-insert key (record { limiter = (lim.allow now l).0; last_seen = now })
          (record { limiter = l; last_seen = now }) fs in
      let (after_all, said) =
        run-atomic_from turns (after_request lim burst idle key now s)
          (take_token lim burst key now fs).1
          (subst (Shows _ _) (sym (ap (λ x. x.1) (take_token-insert lim burst key now fs) ∙ twice))
            served)
          refl in
      subst
        (λ (t : Shared L).
          Shows (run lim burst idle (steps_of turns) t).limiters
            (run lim burst idle (steps_of turns) t).entries
            (atomic turns (take_token lim burst key now fs).1).0
          × (verdicts (run lim burst idle (steps_of turns) t).answers
              ≡ verdicts s.answers
                ++ ((lim.allow now l).1 ∷ (atomic turns (take_token lim burst key now fs).1).1)))
        (sym (step-alone lim burst idle key now s none_waits))
        (
          after_all,
          said
              ∙ ap (λ a. a ++ (atomic turns (take_token lim burst key now fs).1).1)
                  (verdicts-append s.answers n _ _
                    (allow_at-same lim burst idle now n
                      (find lim burst idle (Dict.lookup key s.entries) s).1 l there).1)
              ∙ append_assoc (verdicts s.answers) ((lim.allow now l).1 ∷ []) _,
        )
  run-atomic_from (tick now ∷ turns) s fs shown none_waits =
      run-atomic_from turns (record s { entries = evict idle now s.entries }) (evict idle now fs)
        (evict-Shows idle now s.limiters s.entries fs shown) none_waits

  -- When every request has its Allow right after its getLimiter, in any order with the ticks of the
  -- cleanup loop, the shared limiters are those of the map that has them in its entries: every
  -- request gets the answer of `take_token` on that map, and the two maps have the same keys, times
  -- and limiters, with no limiter for two keys.
  pub run-atomic :
      (turns : List Turn)
      → Shows
          (run lim burst idle (steps_of turns) at_start).limiters
          (run lim burst idle (steps_of turns) at_start).entries
          (atomic turns []).0
        × (verdicts (run lim burst idle (steps_of turns) at_start).answers ≡ (atomic turns []).1)
  run-atomic turns = run-atomic_from turns at_start [] tt refl
