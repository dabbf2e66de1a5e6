-- ===== src/Middleware/Keeping.antt =====
-- The middleware leaves alone what the handlers around it leave alone: a property of the
-- application's state that does not look at the log and at the rate limiter's entries.
use quicframe.Prelude.{
  ℕ, Bool, true, false, List, [], ◌∷◌, Result, Option-cases, inl, inr, if◌then◌else◌,
}
use quicframe.Prelude.Text.{Text, is_empty}
use quicframe.Protocol.Codec.{Msgpack}
use quicframe.Framework.Context.{Context, get_header}
use quicframe.Framework.Handler.{Run, Exit, returned, panicked}
use quicframe.Framework.App.Hosts.{KeepsAlways}
use quicframe.Middleware.Recovery.{recovery, recover}
use quicframe.Middleware.Logger.{RequestLine, LogHost, logger, log_exit}
use quicframe.Middleware.RateLimit.{
  Entries, Host, Limiters, RateLimitConfig, rate_limit_simple, rate_limit, limit, set_defaults,
  key_of_config, take_token,
}
use quicframe.Middleware.Headers.{HeaderRule, require_headers, validate_headers}

module _ {H : Type 0} (P : H → Type 0) (mp : Msgpack) where
  pub recovery-Keeps : KeepsAlways P (recovery mp)
  unfolding recovery recover
  recovery-Keeps h keeps r p = recovered (h r) (keeps r p)
    where
      recovered : (x : Run H × Exit) → P x.0.host → P (recover mp x).0.host
      recovered (r, panicked m) p = p
      recovered (r, returned e) p = p

  -- Both ways that a test on the run can go.
  either-Keeps :
      (b : Bool) (x y : Run H × Exit) → P x.0.host → P y.0.host → P (if b then x else y).0.host
  either-Keeps true x y p q = p
  either-Keeps false x y p q = q

  pub require_headers-Keeps :
      (trim_space : Text → Text) (names : List Text)
      → KeepsAlways P (require_headers mp trim_space names)
  unfolding require_headers
  require_headers-Keeps trim_space [] h keeps r p = keeps r p
  require_headers-Keeps trim_space (n ∷ names) h keeps r p =
      either-Keeps (is_empty (trim_space (get_header n r.ctx))) _ _ p
        (require_headers-Keeps trim_space names h keeps r p)

  pub validate_headers-Keeps :
      (rules : List (Text × HeaderRule)) → KeepsAlways P (validate_headers mp rules)
  unfolding validate_headers
  validate_headers-Keeps [] h keeps r p = keeps r p
  validate_headers-Keeps ((n, rule) ∷ rules) h keeps r p =
      elim (Option-cases (rule (get_header n r.ctx))) [
        | inl passes ↦ rw (passes, validate_headers) (validate_headers-Keeps rules h keeps r p)
        | inr (e, fails) ↦ rw (fails, validate_headers) p
      ]

  module _ (at : LogHost H) (log-P : (line : RequestLine) (h : H) → P h → P (at.log line h)) where
    pub logger-Keeps : KeepsAlways P (logger at)
    unfolding logger log_exit
    logger-Keeps h keeps r p = logged (at.now r.host) (h r) (keeps r p)
      where
        logged : (start : ℕ) (x : Run H × Exit) → P x.0.host → P (log_exit at start x).0.host
        logged start (r, panicked m) p = p
        logged start (r, returned e) p = log-P _ r.host p

  module _ {L : Type 0} (lim : Limiters L) (at : Host H L)
      (put_entries-P : (es : Entries L) (h : H) → P h → P (at.put_entries es h)) where
    limit-Keeps :
        (burst : ℕ) (key_of : Context → Text) → KeepsAlways P (limit mp lim at burst key_of)
    unfolding limit
    limit-Keeps burst key_of h keeps r p =
        let taken = take_token lim burst (key_of r.ctx) (at.now r.host) (at.entries r.host) in
        let p' = put_entries-P taken.1 r.host p in
        either-Keeps taken.0 _ _ (keeps (record r { host = at.put_entries taken.1 r.host }) p') p'

    rate_limit-Keeps :
        (split_host : Text → Result Text) (cfg : RateLimitConfig)
        → KeepsAlways P (rate_limit mp lim at split_host cfg)
    unfolding rate_limit
    rate_limit-Keeps split_host cfg =
        limit-Keeps (set_defaults split_host cfg).burst
          (key_of_config mp lim at (set_defaults split_host cfg).key_func)

    pub rate_limit_simple-Keeps :
        (split_host : Text → Result Text) (rps : ℕ)
        → KeepsAlways P (rate_limit_simple mp lim at split_host rps)
    unfolding rate_limit_simple
    rate_limit_simple-Keeps split_host rps = rate_limit-Keeps split_host _
