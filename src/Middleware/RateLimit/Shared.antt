-- ===== src/Middleware/RateLimit/Shared.antt =====
-- middleware/ratelimit.go with requests that interleave: a request holds the mutex in getLimiter and
-- not in Allow, so that other requests and the cleanup loop come in between. A limiter is an object,
-- known by its number, which the map and the requests share.
pub mod Alone
pub mod Atomic
pub mod Keeping
pub mod Turns
mod Tests
use quicframe.Prelude.{ℕ, zero, suc, Bool, List, [], ◌∷◌, ◌++◌, Option, none, some, length}
use quicframe.Prelude.Text.{Text}
use quicframe.Prelude.Dict
use quicframe.Framework.App.Serving.{take_at}
use quicframe.Middleware.RateLimit.{Entry, Entries, Limiters, evict}

-- The map, the limiters, the requests between getLimiter and Allow with their limiters, and the
-- answers of Allow so far.
pub record Shared (L : Type 0) : Type 0 where
  pub entries : Entries ℕ
  pub limiters : List L
  pub waiting : List ℕ
  pub answers : List (ℕ × Bool)

pub data Step : Type 0 where
  -- `getLimiter(key)` at a time.
  getting : Text → ℕ → Step
  -- The Allow of one of the waiting requests, at a time.
  allowing : ℕ → ℕ → Step
  -- A tick of the cleanup loop.
  sweeping : ℕ → Step

abbrev pub at_start : {L : Type 0} → Shared L
at_start = record { entries = []; limiters = []; waiting = []; answers = [] }

module _ {L : Type 0} (lim : Limiters L) (burst idle : ℕ) where
  -- The key's limiter, made if there is none.
  abbrev pub find : Option (Entry ℕ) → Shared L → ℕ × List L
  find none s = (length s.limiters, s.limiters ++ lim.new_limiter burst ∷ [])
  find (some e) s = (e.limiter, s.limiters)

  abbrev pub limiter_for : Text → Shared L → ℕ
  limiter_for key s = (find (Dict.lookup key s.entries) s).0

  abbrev pub get_shared : Text → ℕ → Shared L → Shared L
  get_shared key now s = record s {
    entries = Dict.insert key (record { limiter = limiter_for key s; last_seen = now }) s.entries;
    limiters = (find (Dict.lookup key s.entries) s).1;
    waiting = s.waiting ++ limiter_for key s ∷ [];
  }

  -- Allow changes the limiter where it stands.
  pub allow_at : ℕ → ℕ → List L → List L × Option Bool
  allow_at now n [] = ([], none)
  allow_at now zero (l ∷ ls) = ((lim.allow now l).0 ∷ ls, some (lim.allow now l).1)
  allow_at now (suc n) (l ∷ ls) = let rest = allow_at now n ls in (l ∷ rest.0, rest.1)

  abbrev pub answered : ℕ → Option Bool → List (ℕ × Bool)
  answered n none = []
  answered n (some b) = (n, b) ∷ []

  unfoldable pub allow_shared : ℕ → Option (ℕ × List ℕ) → Shared L → Shared L
  unfolding allow_at
  allow_shared now none s = s
  allow_shared now (some (n, others)) s =
      let x = allow_at now n s.limiters in
      record s { limiters = x.0; waiting = others; answers = s.answers ++ answered n x.1 }

  unfoldable pub step : Step → Shared L → Shared L
  unfolding allow_shared
  step (getting key now) s = get_shared key now s
  step (allowing n now) s = allow_shared now (take_at n s.waiting) s
  step (sweeping now) s = record s { entries = evict idle now s.entries }

  unfoldable pub run : List Step → Shared L → Shared L
  run [] s = s
  run (e ∷ es) s = run es (step e s)
