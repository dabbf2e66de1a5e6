-- ===== src/Middleware/RateLimit.antt =====
-- middleware/ratelimit.go. `rate.Limiter` is golang.org/x/time/rate's; the entries are state that
-- all requests share, a part of the application's state, and so is the clock. A limiter stands in
-- its entry, so what Allow changes is written back there. Map entries are removed by the
-- background loop, whose every tick is one call of `evict`.
pub mod Keys
pub mod Eviction
pub mod Shared
use quicframe.Prelude.{
  ℕ, ◌-◌, ◌*◌, ◌≡◌, Bool, true, false, List, [], ◌∷◌, Option, none, some, Result, ok, err,
  if◌then◌else◌, ltb, ◌==◌,
}
use quicframe.Prelude.Text.{Text, codes}
use quicframe.Prelude.Dict
use quicframe.Protocol.Types.{status_too_many_requests}
use quicframe.Protocol.Codec.{Msgpack}
use quicframe.Framework.Context.{Context, error}
use quicframe.Framework.Handler.{Run, Exit, HandlerFunc, MiddlewareFunc, perform}

-- Times in nanoseconds.
abbrev pub minute : ℕ
minute = 60000000000

pub record Entry (L : Type 0) : Type 0 where
  pub limiter : L
  pub last_seen : ℕ

abbrev pub Entries : Type 0 → Type 0
Entries L = List (Text × Entry L)

-- `rate.NewLimiter` at the configured rate, for a burst, and `Allow` at a time.
pub record Limiters (L : Type 0) : Type 0 where
  pub new_limiter : ℕ → L
  pub allow : ℕ → L → L × Bool

-- Where the application's state keeps the entries and the time.
pub record Host (H L : Type 0) : Type 0 where
  pub entries : H → Entries L
  pub put_entries : Entries L → H → H
  pub now : H → ℕ
  pub entries-put_entries : (es : Entries L) (h : H) → entries (put_entries es h) ≡ es

-- `truncated_rate` is `int(RequestsPerSecond)`; 0 stands for an unset field, as in the source.
pub record RateLimitConfig : Type 0 where
  pub truncated_rate : ℕ
  pub burst : ℕ
  pub key_func : Option (Context → Text)
  pub cleanup_interval : ℕ
  pub idle_timeout : ℕ

abbrev host_or_address : Text → Result Text → Text
host_or_address addr (ok host) = host
host_or_address addr (err e) = addr

-- The default key; `split_host` is the host of `net.SplitHostPort`.
abbrev address_key : (Text → Result Text) → Option Text → Text
address_key split_host none = codes "unknown"
address_key split_host (some addr) = host_or_address addr (split_host addr)

abbrev key_or_default : (Text → Result Text) → Option (Context → Text) → Context → Text
key_or_default split_host none c = address_key split_host c.conn.remote_addr
key_or_default split_host (some f) c = f c

abbrev default_burst : ℕ → ℕ → ℕ
default_burst rate burst = if burst == 0 then (if ltb rate 1 then 1 else rate) else burst

unfoldable pub set_defaults : (Text → Result Text) → RateLimitConfig → RateLimitConfig
set_defaults split_host c = record {
  truncated_rate = c.truncated_rate;
  burst = default_burst c.truncated_rate c.burst;
  key_func = some (key_or_default split_host c.key_func);
  cleanup_interval = if c.cleanup_interval == 0 then 5 * minute else c.cleanup_interval;
  idle_timeout = if c.idle_timeout == 0 then 10 * minute else c.idle_timeout;
}

-- One tick of the cleanup loop.
unfoldable pub evict : {L : Type 0} → ℕ → ℕ → Entries L → Entries L
evict idle_timeout now [] = []
evict idle_timeout now ((k, e) ∷ es) =
    let rest = evict idle_timeout now es in
    if ltb idle_timeout (now - e.last_seen) then rest else (k, e) ∷ rest

module _ {L : Type 0} (lim : Limiters L) where
  unfoldable pub limiter_of : ℕ → Option (Entry L) → L
  limiter_of burst none = lim.new_limiter burst
  limiter_of burst (some e) = e.limiter

  -- `getLimiter(key)`: the limiter, and the entries with its entry seen now.
  unfoldable pub get_limiter : ℕ → Text → ℕ → Entries L → L × Entries L
  unfolding limiter_of
  get_limiter burst key now es =
      let l = limiter_of burst (Dict.lookup key es) in
      (l, Dict.insert key (record { limiter = l; last_seen = now }) es)

  -- What Allow leaves of the key's limiter, in the entry that holds it.
  abbrev pub put_limiter : Text → L → Option (Entry L) → Entries L → Entries L
  put_limiter key l none es = es
  put_limiter key l (some e) es = Dict.insert key (record e { limiter = l }) es

  -- `getLimiter(key).Allow()`: Allow changes the limiter that getLimiter returned, and the entries
  -- are those that it left.
  unfoldable pub take_token : ℕ → Text → ℕ → Entries L → Bool × Entries L
  unfolding get_limiter
  take_token burst key now es =
      let got = get_limiter burst key now es in
      let allowed = lim.allow now got.0 in
      (allowed.1, put_limiter key allowed.0 (Dict.lookup key got.1) got.1)

module _ {H L : Type 0} (mp : Msgpack) (lim : Limiters L) (at : Host H L) where
  abbrev pub too_many : HandlerFunc H
  too_many = perform (error mp status_too_many_requests (codes "rate limit exceeded") [])

  -- The middleware for a burst and a key function.
  unfoldable pub limit : ℕ → (Context → Text) → MiddlewareFunc H
  limit burst key_of next r =
      let taken = take_token lim burst (key_of r.ctx) (at.now r.host) (at.entries r.host) in
      let r' : Run H = record r { host = at.put_entries taken.1 r.host } in
      if taken.0 then next r' else too_many r'

  abbrev pub key_of_config : Option (Context → Text) → Context → Text
  key_of_config none c = []
  key_of_config (some f) c = f c

  unfoldable pub rate_limit : (Text → Result Text) → RateLimitConfig → MiddlewareFunc H
  unfolding limit
  rate_limit split_host cfg =
      limit (set_defaults split_host cfg).burst
        (key_of_config (set_defaults split_host cfg).key_func)

  -- A rate that is a whole number.
  unfoldable pub rate_limit_simple : (Text → Result Text) → ℕ → MiddlewareFunc H
  unfolding rate_limit
  rate_limit_simple split_host rps = rate_limit split_host (record {
    truncated_rate = rps;
    burst = 0;
    key_func = none;
    cleanup_interval = 0;
    idle_timeout = 0;
  })
