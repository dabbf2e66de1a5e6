-- ===== src/Middleware/RateLimit/Shared/Tests.antt =====
-- Two requests of one key that overlap, with one of another key and a tick in between.
use quicframe.Prelude.{ℕ, ◌-◌, ◌≡◌, List, [], ◌∷◌, some, ltb, arith}
use quicframe.Prelude.Text.{codes}
use quicframe.Prelude.Dict
use quicframe.Middleware.RateLimit.{Limiters}
use quicframe.Middleware.RateLimit.Shared.{
  Step, getting, allowing, sweeping, at_start, limiter_for, step, run,
}
use quicframe.Middleware.RateLimit.Shared.Alone.{Shows}
use quicframe.Middleware.RateLimit.Shared.Turns.{
  Turn, request, tick, steps_of, verdicts, atomic, run-atomic,
}
use quicframe.Middleware.RateLimit.Shared.Keeping.{getting-keeps}

-- A limiter is the number of its tokens.
abbrev tokens : Limiters ℕ
tokens = record { new_limiter = λ n. n; allow = λ now n. (n - 1, ltb 0 n) }

abbrev before : List Step
before = getting (codes "a") 1 ∷ allowing 0 2 ∷ []

abbrev meanwhile : List Step
meanwhile = getting (codes "b") 5 ∷ sweeping 9 ∷ getting (codes "a") 10 ∷ allowing 0 11 ∷ []

getting-keeps_example :
    (seen : ℕ) × (Dict.lookup
        (codes "a")
        (run tokens 3 6 meanwhile
          (step tokens 3 6 (getting (codes "a") 4) (run tokens 3 6 before at_start))).entries
      ≡ some (record {
        limiter = limiter_for tokens 3 6 (codes "a") (run tokens 3 6 before at_start);
        last_seen = seen;
      }))
    × (limiter_for tokens 3 6 (codes "a") (
          run tokens 3 6 meanwhile
            (step tokens 3 6 (getting (codes "a") 4) (run tokens 3 6 before at_start)))
        ≡ limiter_for tokens 3 6 (codes "a") (run tokens 3 6 before at_start))
getting-keeps_example =
    getting-keeps tokens 3 6 before meanwhile (codes "a") 4
      (omega arith, (omega arith, (omega arith, (omega arith, tt))))

-- Four requests of one key with three tokens, one of another, and two ticks.
abbrev turns : List Turn
turns =
    request (codes "a") 1
    ∷ request (codes "b") 2
    ∷ request (codes "a") 3
    ∷ tick 9
    ∷ request (codes "a") 9
    ∷ request (codes "a") 10
    ∷ tick 30
    ∷ []

run-atomic_example :
    Shows
      (run tokens 3 6 (steps_of turns) at_start).limiters
      (run tokens 3 6 (steps_of turns) at_start).entries
      (atomic tokens 3 6 turns []).0
    × (verdicts (run tokens 3 6 (steps_of turns) at_start).answers ≡ (atomic tokens 3 6 turns []).1)
run-atomic_example = run-atomic tokens 3 6 turns
